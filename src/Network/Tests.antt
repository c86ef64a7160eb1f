-- ===== src/Network/Tests.antt =====
-- A message and a key, and what the theorems say of them.
use darghos_tfs04_86_v.Base.{◌≡◌, true, false, [], ◌∷◌, arith, Text}
use darghos_tfs04_86_v.Network.{NetworkMessage, get_string, put_string}
use darghos_tfs04_86_v.Network.Strings.{get_string-put_string}
use darghos_tfs04_86_v.Network.Xtea.{Key, encrypt_words, decrypt_words}
use darghos_tfs04_86_v.Network.Xtea.RoundTrip.{decrypt-encrypt_words}

abbrev empty_message : NetworkMessage
empty_message = record { size = 0; position = 8; buffer = λ j. 0 }

abbrev hello : Text
hello = b'h' ∷ b'i' ∷ []

get_string-put_string_example :
    get_string false 0 (record (put_string hello true empty_message) { position = 8 })
    ≡ (hello, put_string hello true empty_message)
get_string-put_string_example =
    get_string-put_string empty_message hello (omega arith) (omega arith)

abbrev near_end : NetworkMessage
near_end = record { size = 15350; position = 15350; buffer = λ j. 0 }

abbrev key : Key
key = record { k0 = 0x1234; k1 = 0xdeadbeef; k2 = 7; k3 = 0xffff_ffff }

decrypt-encrypt_words_example :
    decrypt_words key (encrypt_words key (1 ∷ 2 ∷ 3 ∷ 4 ∷ [])) ≡ 1 ∷ 2 ∷ 3 ∷ 4 ∷ []
decrypt-encrypt_words_example = decrypt-encrypt_words key (1 ∷ 2 ∷ 3 ∷ 4 ∷ []) (omega arith)
