-- ===== src/Vita49/Sender/Order.antt =====
-- The queue of a `PacedSender` is in the order of its deadlines.
use fers.Base.{ℕ, ◌+◌, ◌≡◌, refl, true, false, List, [], ◌∷◌, ◌++◌, arith}
use fers.Floats.{Floats}
use fers.Vita49.Packetizer.{SerializedPacket}
use fers.Vita49.Sender.{insert, insert_all}

-- The sum of a weight of the members of a list.
unfoldable pub total {ℓ} : {A : Type ℓ} → (A → ℕ) → List A → ℕ
total w [] = 0
total w (x ∷ xs) = w x + total w xs

pub total-append {ℓ} :
    {A : Type ℓ} (w : A → ℕ) (xs ys : List A) → total w (xs ++ ys) ≡ total w xs + total w ys
unfolding total
total-append w [] ys = omega arith
total-append w (x ∷ xs) ys = ground (arith, total-append w xs ys)

module _ (F : Floats) where
  open F use {R, double}

  -- No packet is due before `p`.
  abbrev pub NoneBefore : SerializedPacket R → List (SerializedPacket R) → Type 0
  NoneBefore p [] = Unit {0}
  NoneBefore p (q ∷ queue) =
      (double.lt q.first_sample_time p.first_sample_time ≡ false) × NoneBefore p queue

  abbrev pub Ordered : List (SerializedPacket R) → Type 0
  Ordered [] = Unit {0}
  Ordered (p ∷ queue) = NoneBefore p queue × Ordered queue

  -- The weights of an insertion: each packet is kept once.
  pub total-insert :
      (w : SerializedPacket R → ℕ) (p : SerializedPacket R) (queue : List (SerializedPacket R))
      → total w (insert F p queue) ≡ w p + total w queue
  unfolding insert total
  total-insert w p [] = refl
  total-insert w p (q ∷ queue) = ground (arith, total-insert w p queue)

  pub total-insert_all :
      (w : SerializedPacket R → ℕ) (packets queue : List (SerializedPacket R))
      → total w (insert_all F packets queue) ≡ total w packets + total w queue
  unfolding insert_all total
  total-insert_all w [] queue = omega arith
  total-insert_all w (p ∷ packets) queue =
      ground (arith, total-insert_all w packets (insert F p queue), total-insert w p queue)

  -- IEEE 754 comparison of times that are not NaN.
  module _ (asymmetric : (a b : R) → double.lt a b ≡ true → double.lt b a ≡ false)
      (transitive : (a b c : R)
        → double.lt a b ≡ false
        → double.lt b c ≡ false
        → double.lt a c ≡ false) where
    NoneBefore-trans :
        (p q : SerializedPacket R) (queue : List (SerializedPacket R))
        → double.lt q.first_sample_time p.first_sample_time ≡ false
        → NoneBefore q queue
        → NoneBefore p queue
    NoneBefore-trans p q [] h all = tt
    NoneBefore-trans p q (r ∷ queue) h all = (
      transitive r.first_sample_time q.first_sample_time p.first_sample_time all.0 h,
      NoneBefore-trans p q queue h all.1,
    )

    NoneBefore-insert :
        (p q : SerializedPacket R) (queue : List (SerializedPacket R))
        → double.lt p.first_sample_time q.first_sample_time ≡ false
        → NoneBefore q queue
        → NoneBefore q (insert F p queue)
    unfolding insert
    NoneBefore-insert p q [] h all = (h, tt)
    NoneBefore-insert p q (r ∷ queue) h all = ground (arith, NoneBefore-insert p q queue h all.1)

    -- An insertion keeps the order of the queue.
    pub insert-Ordered :
        (p : SerializedPacket R) (queue : List (SerializedPacket R))
        → Ordered queue
        → Ordered (insert F p queue)
    unfolding insert
    insert-Ordered p [] all = (tt, tt)
    insert-Ordered p (q ∷ queue) all = ground (
      arith,
      insert-Ordered p queue all.1,
      NoneBefore-insert p q queue,
      NoneBefore-trans p q queue,
      asymmetric p.first_sample_time q.first_sample_time,
    )

    pub insert_all-Ordered :
        (packets queue : List (SerializedPacket R))
        → Ordered queue
        → Ordered (insert_all F packets queue)
    unfolding insert_all
    insert_all-Ordered [] queue all = all
    insert_all-Ordered (p ∷ packets) queue all =
        insert_all-Ordered packets (insert F p queue) (insert-Ordered p queue all)
