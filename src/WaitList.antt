-- ===== src/WaitList.antt =====
-- waitlist.h and waitlist.cpp: the queue of players that wait for a free place on the server.
-- A position in the list stands for an iterator. One call reads the clock once. Timeouts are
-- milliseconds of the clock, which is not negative.
pub mod Find
pub mod Order
pub mod Fairness
pub mod Unique
pub mod Outcome
mod Tests
use darghos_tfs04_86_v.Base.{
  ℕ, suc, ◌+◌, ◌*◌, Bool, true, false, ◌&&◌, ◌||◌, not, Option, none, some, List, [], ◌∷◌, map,
  Text, text_eq, ltb, leb, ◌==◌, if◌then◌else◌, u32, length, is_empty, get_elem?, set, erase_at,
  insert_at, select,
}

pub record Wait : Type 0 where
  pub ip : ℕ
  pub name : Text
  pub premium : Bool
  pub timeout : ℕ

-- What the queue reads of a `Player`.
pub record Client : Type 0 where
  pub ip : ℕ
  pub name : Text
  pub premium : Bool
  pub can_always_login : Bool
  pub account_manager : Bool

-- What the queue reads of the configuration and of the game at a login.
pub record Server : Type 0 where
  pub online : ℕ
  pub max_players : ℕ
  pub premium_skip_wait : Bool
  pub now : ℕ

-- `tolower` in the C locale.
pub tolower : ℕ → ℕ
tolower c = if leb b'A' c && leb c b'Z' then c + 32 else c

unfoldable pub as_lower_case_string : Text → Text
unfolding tolower
as_lower_case_string s = map tolower s

-- The test of the loop in `find`.
pub is_entry_of : Client → Wait → Bool
is_entry_of p w =
    w.ip == p.ip && text_eq (as_lower_case_string w.name) (as_lower_case_string p.name)

pub find_from : Client → List Wait → ℕ → ℕ → Option ℕ × ℕ
find_from p [] i slot = (none, slot)
find_from p (w ∷ ws) i slot =
    let rest = find_from p ws (suc i) (u32 (slot + 1)) in
    if is_entry_of p w then (some i, slot) else rest

-- The position of the player's entry, if there is one, and the slot counted on the way.
pub find : Client → List Wait → Option ℕ × ℕ
unfolding find_from
find p ws = find_from p ws 0 1

-- The slot is an `int32_t`, so the upper half of the words is negative.
pub get_time : ℕ → ℕ
get_time slot =
    if leb 0x8000_0000 slot || ltb slot 5
    then 5
    else if ltb slot 10
    then 10
    else if ltb slot 20
    then 20
    else if ltb slot 50
    then 60
    else 120

pub get_timeout : ℕ → ℕ
unfolding get_time
get_timeout slot = get_time slot + 15

pub cleanup : ℕ → List Wait → List Wait
cleanup now ws = select (λ w. not (leb w.timeout now)) ws

premium_end_from : List Wait → ℕ → ℕ → ℕ × ℕ
premium_end_from [] i slot = (i, slot)
premium_end_from (w ∷ ws) i slot =
    let rest = premium_end_from ws (suc i) (u32 (slot + 1)) in if w.premium then rest else (i, slot)

-- Where a new premium entry goes, and its slot.
premium_end : List Wait → ℕ × ℕ
unfolding premium_end_from
premium_end ws = premium_end_from ws 0 1

pub make_wait : Client → ℕ → ℕ → Wait
make_wait p now slot = record {
  ip = p.ip;
  name = p.name;
  premium = p.premium;
  timeout = now + get_timeout slot * 1000;
}

-- The end of `login`, for a player without an entry.
pub enqueue : ℕ → List Wait → Client → List Wait
enqueue now ws p =
    let (i, slot) = premium_end ws in
    if p.premium
    then insert_at ws i (make_wait p now slot)
    else insert_at ws (length ws) (make_wait p now (u32 (length ws + 1)))

-- The middle of `login`, for a player whose entry stands at position `i`.
pub retry : Server → List Wait → ℕ → ℕ → List Wait × Bool
retry s ws i slot = elim (get_elem? ws i) [
  | none ↦ (ws, false)
  | some w ↦
      if ltb s.max_players (u32 (s.online + slot))
      then (set ws i (record w { timeout = s.now + get_timeout slot * 1000 }), false)
      else (erase_at ws i, true)
]

-- The players whom the queue never holds up.
pub skips_queue : Server → List Wait → Client → Bool
skips_queue s ws p =
    p.can_always_login
    || p.account_manager
    || is_empty ws && ltb s.online s.max_players
    || s.premium_skip_wait && p.premium

dispatch : Server → List Wait → Client → Option ℕ × ℕ → List Wait × Bool
unfolding retry enqueue
dispatch s ws p (some i, slot) = retry s ws i slot
dispatch s ws p (none, slot) = (enqueue s.now ws p, false)

-- The queue after the call, and whether the player may enter.
pub login : Server → List Wait → Client → List Wait × Bool
unfolding dispatch
login s ws p =
    if skips_queue s ws p
    then (ws, true)
    else dispatch s (cleanup s.now ws) p (find p (cleanup s.now ws))

-- `none` is the result -1.
pub get_slot : List Wait → Client → Option ℕ
get_slot ws p = let (i, slot) = find p ws in elim i [ none ↦ none | some j ↦ some slot ]
