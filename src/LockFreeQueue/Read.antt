-- ===== src/LockFreeQueue/Read.antt =====
-- The slots of src/common/LockFreeQueue.hpp, read round the ring.
use back_tester.Prelude.{
  ℕ, zero, suc, ◌+◌, ◌-◌, ◌%◌, ◌≤◌, ◌<◌, ◌≡◌, refl, ap, ◌∙◌, true, false, ◌==◌, List, [], ◌∷◌, ◌++◌,
  length, arith,
}
use back_tester.LockFreeQueue.{capacity, update, write_from}

module _ {T : Type 0} where
  -- `n` slots from `t` on.
  unfoldable pub read : (ℕ → T) → ℕ → ℕ → List T
  read b t zero = []
  read b t (suc n) = b t ∷ read b ((t + 1) % capacity) n

  pub length-read : (b : ℕ → T) (t n : ℕ) → length (read b t n) ≡ n
  unfolding read
  length-read b t zero = refl
  length-read b t (suc n) = ap suc (length-read b ((t + 1) % capacity) n)

  pub read-append :
      (b : ℕ → T) (t n m : ℕ)
      → t < capacity
      → read b t (n + m) ≡ read b t n ++ read b ((t + n) % capacity) m
  unfolding read
  read-append b t zero m h =
      ap (read b t) (omega arith) ∙ ap (λ (s : ℕ). read b s m) (omega (arith, h))
  read-append b t (suc n) m h =
      let shifted : suc n + m ≡ suc (n + m) = omega arith in
      ap (read b t) shifted
      ∙ ap (λ r. b t ∷ r)
          (read-append b ((t + 1) % capacity) n m (omega arith)
            ∙ ap (λ (s : ℕ). read b ((t + 1) % capacity) n ++ read b s m) (omega arith))

  -- A slot outside of them makes no difference.
  read-update :
      (b : ℕ → T) (t n i : ℕ) (x : T)
      → t < capacity
      → i < capacity
      → n ≤ (i + capacity - t) % capacity
      → read (update b i x) t n ≡ read b t n
  unfolding read
  read-update b t zero i x ht hi h = refl
  read-update b t (suc n) i x ht hi h =
      let apart : (t == i) ≡ false = ground arith in
      rw apart (
        ap (λ r. b t ∷ r) (read-update b ((t + 1) % capacity) n i x (omega arith) hi (omega arith)))

  pub read-write_from :
      (xs : List T) (b : ℕ → T) (h i t n : ℕ)
      → t < capacity
      → h < capacity
      → n ≤ (h + capacity - t) % capacity
      → (h + capacity - t) % capacity + i + length xs < capacity
      → read (write_from b h i xs) t n ≡ read b t n
  unfolding write_from
  read-write_from [] b h i t n ht hh small room = refl
  read-write_from (x ∷ xs) b h i t n ht hh small room =
      read-write_from xs (update b ((h + i) % capacity) x) h (suc i) t n ht hh small
        (omega (arith, room))
      ∙ read-update b t n ((h + i) % capacity) x ht (omega arith) (omega (arith, room))

  written_before :
      (xs : List T) (b : ℕ → T) (h i j : ℕ)
      → h < capacity
      → j < i
      → i + length xs < capacity
      → write_from b h i xs ((h + j) % capacity) ≡ b ((h + j) % capacity)
  unfolding write_from
  written_before [] b h i j hh small room = refl
  written_before (x ∷ xs) b h i j hh small room =
      let apart : ((h + j) % capacity == (h + i) % capacity) ≡ false = ground arith in
      written_before xs (update b ((h + i) % capacity) x) h (suc i) j hh (omega (arith, small))
        (omega (arith, room))
      ∙ rw apart refl

  -- What is written is read back.
  pub read-written :
      (xs : List T) (b : ℕ → T) (h i : ℕ)
      → h < capacity
      → i + length xs < capacity
      → read (write_from b h i xs) ((h + i) % capacity) (length xs) ≡ xs
  unfolding read write_from
  read-written [] b h i hh room = refl
  read-written (x ∷ xs) b h i hh room =
      let b' : ℕ → T = update b ((h + i) % capacity) x in
      let self : ((h + i) % capacity == (h + i) % capacity) ≡ true = ground arith in
      let first : write_from b' h (suc i) xs ((h + i) % capacity) ≡ x =
        written_before xs b' h (suc i) i hh (omega arith) (omega (arith, room)) ∙ rw self refl in
      let next : ((h + i) % capacity + 1) % capacity ≡ (h + suc i) % capacity = omega arith in
      ap
        (λ y.
          y ∷ read (write_from b' h (suc i) xs) (((h + i) % capacity + 1) % capacity) (length xs))
        first
      ∙ ap (λ (t : ℕ). x ∷ read (write_from b' h (suc i) xs) t (length xs)) next
      ∙ ap (λ r. x ∷ r) (read-written xs b' h (suc i) hh (omega (arith, room)))
