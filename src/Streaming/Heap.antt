-- ===== src/Streaming/Heap.antt =====
-- The heap of crates/consensus/src/streaming.rs: the order of arrival does not matter.
use ultramarine.Common.{
  ℕ, suc, ◌≤◌, ◌<◌, ◌≡◌, ◌≢◌, refl, Bool, false, ◌||◌, List, [], ◌∷◌, ◌++◌, length, arith,
  length-append,
}
use ultramarine.Streaming.{StreamMessage, MinHeap, push}

-- The messages by rising sequence number, with no number twice.
abbrev pub Rises : ℕ → List StreamMessage → Type 0
Rises n [] = Unit
Rises n (m ∷ ms) = (n ≤ m.sequence) × Rises (suc m.sequence) ms

-- `Shuffle h ms`: the history `h`, the latest message first, holds the messages `ms`, each once.
pub data Shuffle : List StreamMessage → List StreamMessage → Type 0 where
  nil : Shuffle [] []
  pick :
      {h : List StreamMessage} (m : StreamMessage) (xs ys : List StreamMessage)
      → Shuffle h (xs ++ ys)
      → Shuffle (m ∷ h) (xs ++ m ∷ ys)

-- The heap after a history.
unfoldable pub heaped : List StreamMessage → MinHeap
heaped [] = []
heaped (m ∷ h) = push m (heaped h)

Rises-weaken : (n k : ℕ) (ms : List StreamMessage) → n ≤ k → Rises k ms → Rises n ms
Rises-weaken n k [] h r = tt
Rises-weaken n k (m ∷ ms) h r = (omega arith, r.1)

Rises-drop :
    (n : ℕ) (m : StreamMessage) (xs ys : List StreamMessage)
    → Rises n (xs ++ m ∷ ys)
    → Rises n (xs ++ ys)
Rises-drop n m [] ys r = Rises-weaken n (suc m.sequence) ys (omega arith) r.1
Rises-drop n m (x ∷ xs) ys r = (r.0, Rises-drop (suc x.sequence) m xs ys r.1)

-- A message goes back to the place that it was picked from.
push_place :
    (n : ℕ) (m : StreamMessage) (xs ys : List StreamMessage)
    → Rises n (xs ++ m ∷ ys)
    → push m (xs ++ ys) ≡ xs ++ m ∷ ys
unfolding push
push_place n m [] [] r = refl
push_place n m [] (y ∷ ys) r = ground arith
push_place n m (x ∷ xs) ys r =
    ground (arith, push_place (suc x.sequence) m xs ys r.1, before (suc x.sequence) xs r.1)
  where
    before : (k : ℕ) (zs : List StreamMessage) → Rises k (zs ++ m ∷ ys) → k ≤ m.sequence
    before k [] q = q.0
    before k (z ∷ zs) q = omega (arith, before (suc z.sequence) zs q.1)

-- Whatever the order of arrival, the heap pops the messages in the order of the stream.
pub heaped-Shuffle : (n : ℕ) {h ms : List StreamMessage} → Shuffle h ms → Rises n ms → heaped h ≡ ms
unfolding heaped
heaped-Shuffle n nil r = refl
heaped-Shuffle n (pick m xs ys s) r =
    rw (heaped-Shuffle n s (Rises-drop n m xs ys r)) (push_place n m xs ys r)

length-push : (m : StreamMessage) (h : MinHeap) → length (push m h) ≡ suc (length h)
unfolding push
length-push m [] = refl
length-push m (x ∷ h) = ground (arith, length-push m h)

pub length-heaped : (h : List StreamMessage) → length (heaped h) ≡ length h
unfolding heaped
length-heaped [] = refl
length-heaped (m ∷ h) = omega (arith, length-push m (heaped h), length-heaped h)

pub length-Shuffle : {h ms : List StreamMessage} → Shuffle h ms → length h ≡ length ms
length-Shuffle nil = refl
length-Shuffle (pick m xs ys s) =
    omega (arith, length-Shuffle s, length-append xs ys, length-append xs (m ∷ ys))

-- A property of every message of the stream holds of every message of the history.
abbrev pub All {ℓ} : {A : Type 0} → (A → Type ℓ) → List A → Type ℓ
All P [] = Unit
All P (x ∷ xs) = P x × All P xs

All-take :
    (P : StreamMessage → Type 0) (m : StreamMessage) (xs ys : List StreamMessage)
    → All P (xs ++ m ∷ ys)
    → P m × All P (xs ++ ys)
All-take P m [] ys a = a
All-take P m (x ∷ xs) ys a = let r = All-take P m xs ys a.1 in (r.0, (a.0, r.1))

pub All-Shuffle :
    (P : StreamMessage → Type 0) {h ms : List StreamMessage} → Shuffle h ms → All P ms → All P h
All-Shuffle P nil a = tt
All-Shuffle P (pick m xs ys s) a = let r = All-take P m xs ys a in (r.0, All-Shuffle P s r.1)

-- The older part of a history is a shuffle of fewer messages.
pub Shuffle-drop :
    (n : ℕ) (later : List StreamMessage) {h ms : List StreamMessage}
    → Shuffle (later ++ h) ms
    → Rises n ms
    → (rest : List StreamMessage) × Shuffle h rest × Rises n rest
Shuffle-drop n [] {ms = ms} s r = (ms, s, r)
Shuffle-drop n (x ∷ later) (pick m xs ys s) r = Shuffle-drop n later s (Rises-drop n m xs ys r)

abbrev pub Differs : StreamMessage → StreamMessage → Type 0
Differs m x = m.sequence ≢ x.sequence

Differs-above :
    (m : StreamMessage) (n : ℕ) (ys : List StreamMessage)
    → m.sequence < n
    → Rises n ys
    → All (Differs m) ys
Differs-above m n [] k r = tt
Differs-above m n (y ∷ ys) k r =
    (omega arith, Differs-above m (suc y.sequence) ys (omega arith) r.1)

Differs-around :
    (n : ℕ) (m : StreamMessage) (xs ys : List StreamMessage)
    → Rises n (xs ++ m ∷ ys)
    → (n ≤ m.sequence) × All (Differs m) (xs ++ ys)
Differs-around n m [] ys r = (r.0, Differs-above m (suc m.sequence) ys (omega arith) r.1)
Differs-around n m (x ∷ xs) ys r =
    let q = Differs-around (suc x.sequence) m xs ys r.1 in (omega arith, (omega arith, q.1))

-- The sequence number of a message is not among those of the messages before it.
pub Shuffle_distinct :
    (n : ℕ) {m : StreamMessage} {h ms : List StreamMessage}
    → Shuffle (m ∷ h) ms
    → Rises n ms
    → All (Differs m) h
Shuffle_distinct n (pick m xs ys s) r = All-Shuffle (Differs m) s (Differs-around n m xs ys r).1

-- Whether a message of the list passes a test.
abbrev pub any_of : (StreamMessage → Bool) → List StreamMessage → Bool
any_of q [] = false
any_of q (m ∷ ms) = q m || any_of q ms

any_of_around :
    (q : StreamMessage → Bool) (m : StreamMessage) (xs ys : List StreamMessage)
    → any_of q (xs ++ m ∷ ys) ≡ (q m || any_of q (xs ++ ys))
any_of_around q m [] ys = refl
any_of_around q m (x ∷ xs) ys = ground (arith, any_of_around q m xs ys)

pub any_of-Shuffle :
    (q : StreamMessage → Bool) {h ms : List StreamMessage} → Shuffle h ms → any_of q h ≡ any_of q ms
any_of-Shuffle q nil = refl
any_of-Shuffle q (pick m xs ys s) = rw (any_of_around q m xs ys) (rw (any_of-Shuffle q s))

-- No two messages of a history have one sequence number.
abbrev pub Distinct : List StreamMessage → Type 0
Distinct [] = Unit
Distinct (m ∷ h) = All (Differs m) h × Distinct h

pub Shuffle-Distinct : (n : ℕ) {h ms : List StreamMessage} → Shuffle h ms → Rises n ms → Distinct h
Shuffle-Distinct n nil r = tt
Shuffle-Distinct n (pick m xs ys s) r = (
  All-Shuffle (Differs m) s (Differs-around n m xs ys r).1,
  Shuffle-Distinct n s (Rises-drop n m xs ys r),
)
