-- ===== src/Signing/NoncesLaws.antt =====
-- Proofs about the nonces: in order with one instance, and what two instances do.
use big_x.Base.{
  ℕ, suc, ◌+◌, ◌≡◌, refl, Option, none, some, List, [], ◌∷◌, arith, All, sym, subst, ◌⊎◌, inl, inr,
}
use big_x.Signing.Nonces.{
  Pc, idle, missed, counted, chosen, System, incremented, advance, Event, step, chain_moves, resync,
  expire, apply, play,
}

-- Each nonce is the one before it and one more; the last one stands first.
abbrev pub Consecutive : List ℕ → Type 0
Consecutive [] = Unit
Consecutive (n ∷ []) = Unit
Consecutive (n ∷ m ∷ ms) = (n ≡ suc m) × Consecutive (m ∷ ms)

-- The counts that the chain moves to.
abbrev pub counts : List Event → List ℕ
counts [] = []
counts (chain_moves n ∷ es) = n ∷ counts es
counts (e ∷ es) = counts es

abbrev pub IsIn : ℕ → List ℕ → Type 0
IsIn n [] = ⊥
IsIn n (m ∷ ms) = (n ≡ m) ⊎ IsIn n ms

-- The nonce that was returned first is as `P` says.
abbrev pub StartsAt : (ℕ → Type 0) → List ℕ → Type 0
StartsAt P [] = Unit
StartsAt P (n ∷ []) = P n
StartsAt P (n ∷ m ∷ ms) = StartsAt P (m ∷ ms)

-- Where an instance may start: at the key's number, or at a count of the chain if there is no key.
abbrev pub IsStart : Option ℕ → List ℕ → ℕ → Type 0
IsStart (some k) seen n = n ≡ k
IsStart none seen n = IsIn n seen

-- What happens when one instance runs, and its key stays.
abbrev pub IsSolo : Event → Type 0
IsSolo (step i) = i ≡ 0
IsSolo (chain_moves n) = Unit
IsSolo _ = ⊥

abbrev IsMissing : Option ℕ → Type 0
IsMissing none = Unit
IsMissing (some n) = ⊥

-- `P` is where to start, and `IsOpen` holds if that is for the chain to say.
module _ (P : ℕ → Type 0) (IsOpen : Type 0) where
  -- `n` may be issued next.
  abbrev IsNext : ℕ → List ℕ → Type 0
  IsNext n [] = P n
  IsNext n (m ∷ ms) = n ≡ suc m

  abbrev InOrder : Pc → Option ℕ → List ℕ → Type 0
  InOrder idle none ms = (ms ≡ []) × IsOpen
  InOrder idle (some n) ms = IsNext n ms
  InOrder missed _ ms = (ms ≡ []) × IsOpen
  InOrder (counted k) _ ms = (ms ≡ []) × P k
  InOrder (chosen n) cached ms = (cached ≡ some n) × IsNext n ms

  record Inv (s : System) : Type 0 where
    in_order : InOrder (s.pcs 0) s.cached s.issued
    consecutive : Consecutive s.issued
    starts : StartsAt P s.issued
    pending : IsOpen → P s.pending

  Consecutive-cons : (n : ℕ) (ms : List ℕ) → IsNext n ms → Consecutive ms → Consecutive (n ∷ ms)
  Consecutive-cons n [] h c = tt
  Consecutive-cons n (m ∷ ms) h c = (h, c)

  StartsAt-cons : (n : ℕ) (ms : List ℕ) → IsNext n ms → StartsAt P ms → StartsAt P (n ∷ ms)
  StartsAt-cons n [] h c = h
  StartsAt-cons n (m ∷ ms) h c = c

  IsNext-nil : (n : ℕ) (ms : List ℕ) → ms ≡ [] → P n → IsNext n ms
  IsNext-nil n [] h p = p
  IsNext-nil n (m ∷ ms) h p = cc

  after_chosen :
      (n : ℕ) (cached : Option ℕ) (ms : List ℕ)
      → InOrder (chosen n) cached ms
      → IsNext (incremented cached) (n ∷ ms)
  after_chosen n none ms h = cc h.0
  after_chosen n (some m) ms h = cc h.0

  advance-Inv :
      (pc : Pc) (cached : Option ℕ) (s : System)
      → InOrder pc cached s.issued
      → s.cached ≡ cached
      → Consecutive s.issued
      → StartsAt P s.issued
      → (IsOpen → P s.pending)
      → Inv (advance pc cached 0 s)
  advance-Inv idle none s h e c b p = record {
    in_order = h;
    consecutive = c;
    starts = b;
    pending = p;
  }
  advance-Inv idle (some n) s h e c b p = record {
    in_order = (e, h);
    consecutive = c;
    starts = b;
    pending = p;
  }
  advance-Inv missed _ s h e c b p = record {
    in_order = (h.0, p h.1);
    consecutive = c;
    starts = b;
    pending = p;
  }
  advance-Inv (counted n) _ s h e c b p = record {
    in_order = (refl, IsNext-nil n s.issued h.0 h.1);
    consecutive = c;
    starts = b;
    pending = p;
  }
  advance-Inv (chosen n) cached s h e c b p = record {
    in_order = after_chosen n cached s.issued h;
    consecutive = Consecutive-cons n s.issued h.1 c;
    starts = StartsAt-cons n s.issued h.1 b;
    pending = p;
  }

  play-Inv :
      (es : List Event) (s : System)
      → All IsSolo es
      → ((n : ℕ) → IsIn n (counts es) → IsOpen → P n)
      → Inv s
      → Inv (play es s)
  unfolding play
  play-Inv [] s h seen v = v
  play-Inv (step i ∷ es) s h seen v =
      play-Inv es (apply (step i) s) h.1 seen
        (rw h.0 (advance-Inv (s.pcs 0) s.cached s v.in_order refl v.consecutive v.starts v.pending))
  play-Inv (chain_moves n ∷ es) s h seen v =
      play-Inv es (apply (chain_moves n) s) h.1 (λ m i. seen m (inr i))
        (record {
          in_order = v.in_order;
          consecutive = v.consecutive;
          starts = v.starts;
          pending = seen n (inl refl);
        })
  play-Inv (resync ∷ es) s h seen v = absurd h.0
  play-Inv (expire ∷ es) s h seen v = absurd h.0

  idle_start :
      (cached : Option ℕ) (ms : List ℕ)
      → ms ≡ []
      → ((k : ℕ) → cached ≡ some k → P k)
      → (cached ≡ none → IsOpen)
      → InOrder idle cached ms
  idle_start none ms h key chain = (h, chain refl)
  idle_start (some n) ms h key chain = IsNext-nil n ms h (key n refl)

IsStart-key : (cached : Option ℕ) (seen : List ℕ) (k : ℕ) → cached ≡ some k → IsStart cached seen k
IsStart-key none seen k h = cc h
IsStart-key (some n) seen k h = cc h

IsStart-seen :
    (cached : Option ℕ) (seen : List ℕ) (n : ℕ)
    → IsIn n seen
    → IsMissing cached
    → IsStart cached seen n
IsStart-seen none seen n i missing = i
IsStart-seen (some k) seen n i missing = absurd missing

-- One instance whose key is neither lost nor resynced returns consecutive nonces, in the order of its
-- calls, whatever the chain does meanwhile. The first is the number of the key if there is one at the
-- start, and otherwise a count that the chain had at the start or moved to.
pub play-Consecutive :
    (es : List Event) (s : System)
    → s.pcs 0 ≡ idle
    → s.issued ≡ []
    → All IsSolo es
    → Consecutive (play es s).issued
      × StartsAt (IsStart s.cached (s.pending ∷ counts es)) (play es s).issued
play-Consecutive es s i e h =
    let P : ℕ → Type 0 = IsStart s.cached (s.pending ∷ counts es) in
    let from = IsStart-seen s.cached (s.pending ∷ counts es) in
    let key = IsStart-key s.cached (s.pending ∷ counts es) in
    let begun : Inv P (IsMissing s.cached) s = record {
      in_order =
          subst (λ pc. InOrder P (IsMissing s.cached) pc s.cached s.issued) (sym i)
            (idle_start P (IsMissing s.cached) s.cached s.issued e key
              (λ missing. subst IsMissing (sym missing) tt));
      consecutive = subst Consecutive (sym e) tt;
      starts = subst (StartsAt P) (sym e) tt;
      pending = from s.pending (inl refl);
    } in
    let v = play-Inv P (IsMissing s.cached) es s h (λ n m. from n (inr m)) begun in
    (v.consecutive, v.starts)

abbrev pub by_turns : List Event
by_turns = step 0 ∷ step 1 ∷ step 0 ∷ step 1 ∷ []

-- Two instances whose calls are interleaved return the same nonce, whatever number the key holds, and
-- the key skips the next one.
pub by_turns-twice :
    (s : System) (n : ℕ)
    → s.pcs 0 ≡ idle
    → s.pcs 1 ≡ idle
    → s.cached ≡ some n
    → ((play by_turns s).issued ≡ n ∷ n ∷ s.issued) × ((play by_turns s).cached ≡ some (n + 2))
unfolding play
by_turns-twice s n i j c = ground arith
