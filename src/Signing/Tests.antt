-- ===== src/Signing/Tests.antt =====
-- Tests of the nonces of contracts/wallet_service.py, and the theorems at concrete inputs.
use big_x.Base.{◌≡◌, refl, none, some, List, [], ◌∷◌, ◌++◌, ◌+◌}
use big_x.Signing.Nonces.{idle, System, Event, step, chain_moves, play}
use big_x.Signing.NoncesLaws.{
  Consecutive, StartsAt, IsStart, play-Consecutive, by_turns, by_turns-twice,
}

abbrev fresh : System
fresh = record { cached = none; pending = 7; pcs = λ i. idle; issued = [] }

abbrev one_call : List Event
one_call = step 0 ∷ step 0 ∷ step 0 ∷ step 0 ∷ []

-- The first call asks the chain and the second one does not.
two_calls : (play (one_call ++ chain_moves 50 ∷ step 0 ∷ step 0 ∷ []) fresh).issued ≡ 8 ∷ 7 ∷ []
unfolding play
two_calls = refl

play-Consecutive_example :
    let run = (play (one_call ++ chain_moves 50 ∷ step 0 ∷ []) fresh).issued in
    Consecutive run × StartsAt (IsStart none (7 ∷ 50 ∷ [])) run
play-Consecutive_example =
    play-Consecutive (one_call ++ chain_moves 50 ∷ step 0 ∷ []) fresh refl refl
      (refl, (refl, (refl, (refl, (tt, (refl, tt))))))

abbrev warm : System
warm = record fresh { cached = some 7 }

by_turns-twice_example :
    ((play by_turns warm).issued ≡ 7 ∷ 7 ∷ []) × ((play by_turns warm).cached ≡ some (7 + 2))
by_turns-twice_example = by_turns-twice warm 7 refl refl refl
