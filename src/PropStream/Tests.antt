-- ===== src/PropStream/Tests.antt =====
-- The fields of a small item, and what the theorems say of them.
use darghos_tfs04_86_v.Base.{◌≡◌, refl, [], ◌∷◌, List, ℕ, Text, arith}
use darghos_tfs04_86_v.PropStream.{init, got, word_bytes, new_stream, PropWriteStream}
use darghos_tfs04_86_v.PropStream.RoundTrip.{at}
use darghos_tfs04_86_v.PropStream.Fields.{
  Field, byte, short, long, string, read_like, write_all, read_all, read_all-write_all,
}
use darghos_tfs04_86_v.PropStream.Bounds.{IsSafe, read_like-IsSafe}
use darghos_tfs04_86_v.PropStream.Buffer.{Fits}

-- A count, an identifier, an amount and a text.
abbrev item : List Field
item = byte 7 ∷ short 2160 ∷ long 100000 ∷ string (72 ∷ 105 ∷ []) ∷ []

read_all-write_all_example :
    read_all item (init (write_all item new_stream).stream)
    ≡ got item (at (write_all item new_stream).stream [])
read_all-write_all_example =
    read_all-write_all item (omega arith, (omega arith, (omega arith, (omega arith, tt))))
      (omega arith)

-- A text of three characters, of which two are there.
abbrev cut_off : List ℕ
cut_off = 3 ∷ 0 ∷ 72 ∷ 105 ∷ []

read_like-IsSafe_example : IsSafe cut_off (read_like (string []) (init cut_off))
unfolding init
read_like-IsSafe_example =
    read_like-IsSafe cut_off (string []) (init cut_off)
      (omega arith, (omega arith, (omega arith, (omega arith, tt)))) (refl, omega arith)

abbrev greeting : Text
greeting = 72 ∷ 105 ∷ []

-- 31 bytes of 32 are used, so that the text does not fit.
abbrev nearly_full : PropWriteStream
nearly_full = record { stream = word_bytes 31 0; size = 31; buffer_size = 32 }

nearly_full-Fits : Fits nearly_full
nearly_full-Fits = record { counted = refl; room = omega arith }
