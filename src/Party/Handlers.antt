-- ===== src/Party/Handlers.antt =====
-- The handlers `Game::player...Party...` of game.cpp, and `Player::isInviting` of player.cpp.
use darghos_tfs04_86_v.Base.{
  ℕ, suc, Bool, true, false, not, ◌&&◌, ◌||◌, Option, none, some, update, ◌==◌, if◌then◌else◌,
}
use darghos_tfs04_86_v.Party.{
  Party, Player, Players, Env, World, new_party, is_player_invited, set_party,
}
use darghos_tfs04_86_v.Party.Shared.{set_shared_experience}
use darghos_tfs04_86_v.Party.Methods.{
  pass_leadership, leave, join, revoke_invitation, invite_player,
}

abbrev pub has_party : Player → Bool
has_party p = elim p.party [ none ↦ false | some this ↦ true ]

-- The party at an address, with the address. A dangling pointer has none.
abbrev pub deref : World → Option ℕ → Option (ℕ × Party)
deref w none = none
deref w (some this) = elim (w.parties this) [ none ↦ none | some party ↦ some (this, party) ]

-- The world after a method of the party at `this`.
abbrev pub store : World → ℕ → Players → Option Party → World
store w this players party = record w { players = players; parties = update w.parties this party }

unfoldable pub inviting_in : World → ℕ → ℕ → Option (ℕ × Party) → Bool
inviting_in w p q none = false
inviting_in w p q (some (this, party)) =
    party.leader == p && is_player_invited w.players party (some q) false

-- `Player::isInviting`: `p` leads a party that has invited `q`.
unfoldable pub is_inviting : World → ℕ → ℕ → Bool
unfolding inviting_in
is_inviting w p q =
    if (w.players q).removed then false else inviting_in w p q (deref w (w.players p).party)

unfoldable pub invite_in : World → ℕ → Party → ℕ → World × Bool
invite_in w this party q =
    let (players, invited, done) = invite_player w.players this party q in
    (store w this players (some invited), done)

-- `new Party(player)`.
unfoldable pub found_party : World → ℕ → World
found_party w p = record w {
  players = update w.players p (set_party (some w.next) (w.players p));
  parties = update w.parties w.next (some (new_party p));
  next = suc w.next;
}

unfoldable pub invite_by : World → ℕ → ℕ → Option (ℕ × Party) → World × Bool
invite_by w p q none = invite_in (found_party w p) w.next (new_party p) q
invite_by w p q (some (this, party)) =
    if party.leader == p then invite_in w this party q else (w, false)

-- `Game::playerInviteToParty`.
unfoldable pub player_invite_to_party : World → ℕ → ℕ → World × Bool
unfolding invite_by
player_invite_to_party w p q =
    if (w.players p).removed || (w.players q).removed || is_inviting w q p
    then (w, false)
    else if has_party (w.players q)
    then (w, false)
    else invite_by w p q (deref w (w.players p).party)

unfoldable pub join_in : Env → World → ℕ → Option (ℕ × Party) → World × Bool
join_in env w p none = (w, false)
join_in env w p (some (this, party)) =
    let (players, joined, done) = join env w.players this party p in
    (store w this players (some joined), done)

-- `Game::playerJoinParty`.
unfoldable pub player_join_party : Env → World → ℕ → ℕ → World × Bool
unfolding join_in
player_join_party env w p leader =
    if (w.players p).removed || (w.players leader).removed || not (is_inviting w leader p)
    then (w, false)
    else if has_party (w.players p)
    then (w, false)
    else join_in env w p (deref w (w.players leader).party)

unfoldable pub revoke_in : World → ℕ → ℕ → Option (ℕ × Party) → World × Bool
revoke_in w p q none = (w, false)
revoke_in w p q (some (this, party)) =
    let (players, left) = revoke_invitation w.players this party q in
    if not (party.leader == p)
    then (w, false)
    else if (w.players q).removed || not (is_inviting w p q)
    then (w, false)
    else (store w this players left, true)

-- `Game::playerRevokePartyInvitation`.
unfoldable pub player_revoke_party_invitation : World → ℕ → ℕ → World × Bool
unfolding revoke_in
player_revoke_party_invitation w p q =
    if (w.players p).removed then (w, false) else revoke_in w p q (deref w (w.players p).party)

unfoldable pub same_party : Option ℕ → ℕ → Bool
same_party none this = false
same_party (some that) this = that == this

unfoldable pub pass_in : Env → World → ℕ → ℕ → Option (ℕ × Party) → World × Bool
unfolding same_party
pass_in env w p q none = (w, false)
pass_in env w p q (some (this, party)) =
    let (passed, done) = pass_leadership env w.players party q in
    if not (party.leader == p)
    then (w, false)
    else if (w.players q).removed || not (same_party (w.players q).party this)
    then (w, false)
    else (store w this w.players (some passed), done)

-- `Game::playerPassPartyLeadership`.
unfoldable pub player_pass_party_leadership : Env → World → ℕ → ℕ → World × Bool
unfolding pass_in
player_pass_party_leadership env w p q =
    if (w.players p).removed then (w, false) else pass_in env w p q (deref w (w.players p).party)

unfoldable pub leave_in : Env → World → ℕ → Option (ℕ × Party) → World × Bool
leave_in env w p none = (w, false)
leave_in env w p (some (this, party)) =
    let (players, left, done) = leave env w.players this party p in
    (store w this players left, done)

-- `Game::playerLeaveParty`.
unfoldable pub player_leave_party : Env → World → ℕ → Bool → World × Bool
unfolding leave_in
player_leave_party env w p forced =
    if (w.players p).removed || (w.players p).in_fight && not forced
    then (w, false)
    else leave_in env w p (deref w (w.players p).party)

unfoldable pub share_in : Env → World → ℕ → Bool → Option (ℕ × Party) → World × Bool
share_in env w p activate none = (w, false)
share_in env w p activate (some (this, party)) =
    let (shared, done) = set_shared_experience env w.players party p activate in
    (store w this w.players (some shared), done)

-- `Game::playerSharePartyExperience`.
unfoldable pub player_share_party_experience : Env → World → ℕ → Bool → World × Bool
unfolding share_in
player_share_party_experience env w p activate =
    if (w.players p).removed || not (w.players p).not_gain_in_fight && (w.players p).in_fight
    then (w, false)
    else share_in env w p activate (deref w (w.players p).party)
