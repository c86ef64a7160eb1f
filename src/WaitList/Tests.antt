-- ===== src/WaitList/Tests.antt =====
-- A queue of three on a full server, and what the theorems say of it.
use darghos_tfs04_86_v.Base.{◌≡◌, refl, true, false, List, [], ◌∷◌, some, arith}
use darghos_tfs04_86_v.WaitList.{
  Wait, Client, Server, login, get_slot, cleanup, is_entry_of, skips_queue, find, enqueue,
  make_wait, premium_end, get_timeout, as_lower_case_string, find_from,
}
use darghos_tfs04_86_v.WaitList.Order.{premium_first, login-premium_first}
use darghos_tfs04_86_v.WaitList.Fairness.{others, login-others}
use darghos_tfs04_86_v.WaitList.Unique.{IsUnique}
use darghos_tfs04_86_v.WaitList.Outcome.{Outcome, login-Outcome}

abbrev full_server : Server
full_server = record { online = 100; max_players = 100; premium_skip_wait = false; now = 5000 }

abbrev paying : Wait
paying = record { ip = 1; name = b'A' ∷ []; premium = true; timeout = 9000 }

abbrev idle : Wait
idle = record { ip = 2; name = b'B' ∷ []; premium = false; timeout = 4000 }

abbrev patient : Wait
patient = record { ip = 3; name = b'C' ∷ []; premium = false; timeout = 9000 }

abbrev queue : List Wait
queue = paying ∷ idle ∷ patient ∷ []

abbrev newcomer : Client
newcomer = record {
  ip = 4;
  name = b'D' ∷ [];
  premium = true;
  can_always_login = false;
  account_manager = false;
}

abbrev returning : Client
returning = record {
  ip = 3;
  name = b'c' ∷ [];
  premium = false;
  can_always_login = false;
  account_manager = false;
}

premium_slot : get_slot (login full_server queue newcomer).0 newcomer ≡ some 2
unfolding login get_slot find_from is_entry_of as_lower_case_string cleanup skips_queue find enqueue
    make_wait premium_end get_timeout
premium_slot = refl

returning_slot : get_slot (login full_server queue returning).0 returning ≡ some 2
unfolding login get_slot find_from is_entry_of as_lower_case_string cleanup skips_queue find
    get_timeout
returning_slot = refl

login-premium_first_example : premium_first (login full_server queue newcomer).0 ≡ true
unfolding premium_first
login-premium_first_example = login-premium_first full_server queue newcomer refl

login-others_example : others newcomer (login full_server queue newcomer).0 ≡ paying ∷ patient ∷ []
unfolding skips_queue cleanup is_entry_of
login-others_example = login-others full_server queue newcomer refl

login-Outcome_example : Outcome full_server queue newcomer (login full_server queue newcomer)
login-Outcome_example = login-Outcome full_server queue newcomer

alone : IsUnique (patient ∷ [])
alone q = ground arith
