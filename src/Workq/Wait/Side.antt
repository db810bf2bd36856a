-- ===== src/Workq/Wait/Side.antt =====
-- workq/waitside.go: the wait list, the tokens, and the transitions of a side. Each function stands
-- for a critical section, or for the successful compare-and-swap of the word where there is none. A
-- panic is `none`. The list is that of the links, from `oldest` to `newest`.
use go_data_structures.Base.{
  ℕ, zero, suc, ◌-◌, ◌*◌, Bool, true, false, ◌||◌, List, [], ◌∷◌, ◌++◌, Option, none, some, min,
  ltb, leb, ◌==◌, if◌then◌else◌, update,
}
use go_data_structures.Workq.Wait.Word.{
  one_poller, one_parked, count_mask, add_word, sub_word, pollers, parked, closed, needs_wake,
  mark_closed,
}

-- `word`, the list, and how many tokens each caller's channel holds.
pub record Side : Type 0 where
  pub word : ℕ
  pub list : List ℕ
  pub tokens : ℕ → ℕ

-- `register`
unfoldable pub register : Side → Bool × Side
register side =
    if closed side.word
    then (true, side)
    else (false, record side { word = add_word side.word one_poller })

-- `removeForWake` and the send of its token, for each of a group.
unfoldable pub send_tokens : ℕ → Side → Option Side
send_tokens zero side = some side
send_tokens (suc n) side = elim side.list [
  | [] ↦ none
  | i ∷ rest ↦
      let sent = send_tokens n (record side { list = rest; tokens = update side.tokens i 1 }) in
      if side.tokens i == 0 then sent else none
]

-- A wake that has sent its tokens reports so.
abbrev pub woken : Option Side → Option (Bool × Side)
woken none = none
woken (some side) = some (true, side)

-- `wakeOneLocked`
unfoldable pub wake_one : Side → Option (Bool × Side)
unfolding send_tokens
wake_one side =
    if needs_wake side.word
    then woken
        (send_tokens 1 (record side { word = sub_word (add_word side.word one_poller) one_parked }))
    else some (false, side)

-- `leavePollingWith`, up to the cleanup, which is a wake or nothing.
unfoldable pub leave_polling : Side → Option Side
leave_polling side =
    if pollers side.word == 0
    then none
    else some (record side { word = sub_word side.word one_poller })

-- `enlist`, at the oldest end or the newest.
unfoldable pub enlist : (caller : ℕ) (at_oldest : Bool) → Side → Option (Bool × Side)
enlist i at_oldest side =
    if closed side.word
    then some (true, side)
    else if pollers side.word == 0
    then none
    else some (
      false,
      record side {
        word = add_word (sub_word side.word one_poller) one_parked;
        list = if at_oldest then i ∷ side.list else side.list ++ i ∷ [];
      },
    )

-- `unlink`
unfoldable pub unlink : ℕ → List ℕ → List ℕ
unlink i [] = []
unlink i (j ∷ list) = let rest = unlink i list in if j == i then list else j ∷ rest

-- `leaveListWith` of a caller that is still listed, up to the cleanup.
unfoldable pub leave_list : ℕ → Side → Option Side
unfolding unlink
leave_list i side =
    if parked side.word == 0
    then none
    else some (record side { word = sub_word side.word one_parked; list = unlink i side.list })

-- `<-caller.token`, for which a caller without a token waits.
unfoldable pub take_token : ℕ → Side → Option Side
take_token i side =
    if side.tokens i == 0
    then none
    else some (record side { tokens = update side.tokens i (side.tokens i - 1) })

-- `setClosedLocked`
unfoldable pub set_closed : Side → Bool × Side
unfolding mark_closed
set_closed side =
    if closed side.word then (false, side) else (true, record side { word = mark_closed side.word })

-- `wakeGroup`
unfoldable pub wake_group : (target : ℕ) → Side → Option (Bool × Side)
unfolding send_tokens
wake_group target side =
    let count = min (parked side.word) (target - pollers side.word) in
    if parked side.word == 0 || leb target (pollers side.word)
    then some (false, side)
    else if ltb count_mask target
    then none
    else if ltb (count_mask - pollers side.word) count
    then none
    else woken (
        send_tokens count
          (record side { word = sub_word (add_word side.word count) (count * one_parked) }))
