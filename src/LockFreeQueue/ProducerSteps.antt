-- ===== src/LockFreeQueue/ProducerSteps.antt =====
-- A step of the producer of src/common/LockFreeQueue.hpp keeps the indices in order and overwrites no
-- slot that was not read.
use back_tester.Prelude.{
  ℕ, ◌+◌, ◌-◌, ◌%◌, ◌≤◌, ◌<◌, ◌≡◌, ◌≢◌, refl, sym, ap, subst, ◌∙◌, Bool, true, false, ◌==◌, ltb,
  Bool-cases, inl, inr, List, [], ◌∷◌, ◌++◌, append-nil, length, arith, if◌then◌else◌,
}
use back_tester.LockFreeQueue.{
  capacity, Ring, Producer, Consumer, update, write_from, free_slots, producer_step, published,
}
use back_tester.LockFreeQueue.Read.{read, read-append, read-write_from, read-written}
use back_tester.LockFreeQueue.Sound.{count, lag, contents, IsSound, IsReady, IsTaking}

module _ {T : Type 0} where
  room_single :
      (r : Ring T)
      → IsSound r
      → ((r.head + 1) % capacity == r.tail_cached) ≡ false
      → lag r + 1 < capacity
  room_single r s h =
      let apart : (r.head + 1) % capacity ≢ r.tail_cached = ground arith in omega (arith, apart)

  room_batch :
      (r : Ring T) (n : ℕ) → IsSound r → ltb (free_slots r) n ≡ false → lag r + n < capacity
  room_batch r n s h = let fits : n ≤ free_slots r = ground arith in omega (arith, fits)

  -- A step of the producer: sound indices stay so, what it publishes joins the contents, and what the
  -- consumer has seen stays true.
  pub record Produced (c : Consumer) (p p' : Producer T) (r r' : Ring T) : Type 0 where
    pub sound : IsSound r'
    pub ready : IsReady p' r'
    pub taking : IsTaking c r'
    pub joined : contents r' ≡ contents r ++ published p

  unchanged :
      (c : Consumer) (p p' : Producer T) (r : Ring T)
      → IsSound r
      → IsReady p' r
      → IsTaking c r
      → published p ≡ []
      → Produced c p p' r r
  unchanged c p p' r s ready taking nothing = record {
    sound = s;
    ready = ready;
    taking = taking;
    joined = rw nothing (sym (append-nil (contents r)));
  }

  written :
      (c : Consumer) (p : Producer T) (r : Ring T) (xs : List T)
      → IsSound r
      → IsTaking c r
      → published p ≡ []
      → lag r + length xs < capacity
      → Produced c p
          (Producer.publishes xs)
          r
          (record r { buffer = write_from r.buffer r.head 0 xs })
  written c p r xs s taking nothing room = record {
    sound = omega arith;
    ready = (
      ap (λ (t : ℕ). read (write_from r.buffer r.head 0 xs) t (length xs)) (omega arith)
          ∙ read-written xs r.buffer r.head 0 s.head_small (omega (arith, room)),
      room,
    );
    taking = taking;
    joined = rw nothing (
        read-write_from xs r.buffer r.head 0 r.tail (count r) s.tail_small s.head_small
          (omega arith) (omega (arith, room))
        ∙ sym (append-nil (contents r)));
  }

  reloaded :
      (c : Consumer) (p p' : Producer T) (r : Ring T)
      → IsSound r
      → IsTaking c r
      → IsReady p' (record r { tail_cached = r.tail })
      → published p ≡ []
      → Produced c p p' r (record r { tail_cached = r.tail })
  reloaded c p p' r s taking ready nothing = record {
    sound = omega arith;
    ready = ready;
    taking = taking;
    joined = rw nothing (sym (append-nil (contents r)));
  }

  publish :
      (c : Consumer) (xs : List T) (r : Ring T)
      → IsSound r
      → IsTaking c r
      → read r.buffer r.head (length xs) ≡ xs
      → lag r + length xs < capacity
      → Produced c
          (Producer.publishes xs)
          Producer.idle
          r
          (record r { head = (r.head + length xs) % capacity })
  publish c xs r s taking written room = record {
    sound = omega (arith, room);
    ready = tt;
    taking = taking;
    joined =
        let more : ((r.head + length xs) % capacity + capacity - r.tail) % capacity
            ≡ count r + length xs =
          omega (arith, room) in
        let slot : (r.tail + count r) % capacity ≡ r.head = omega arith in
        ap (read r.buffer r.tail) more
        ∙ read-append r.buffer r.tail (count r) (length xs) s.tail_small
        ∙ ap (λ (t : ℕ). contents r ++ read r.buffer t (length xs)) slot
        ∙ ap (λ ys. contents r ++ ys) written;
  }

  asks-IsReady :
      (p : Producer T) (r : Ring T) (b : Bool)
      → IsReady p r
      → IsReady (if b then Producer.idle else p) r
  asks-IsReady p r true h = tt
  asks-IsReady p r false h = h

  first_slot : (r : Ring T) → IsSound r → (r.head + 0) % capacity ≡ r.head
  first_slot r s = omega arith

  pub producer_step-Produced :
      (c : Consumer) (p : Producer T) (r : Ring T)
      → IsSound r
      → IsReady p r
      → IsTaking c r
      → Produced c p (producer_step p r).0 r (producer_step p r).1
  unfolding producer_step write_from
  producer_step-Produced c Producer.idle r s ready taking = unchanged c _ _ r s tt taking refl
  producer_step-Produced c (Producer.push_tests x) r s ready taking =
      elim (Bool-cases ((r.head + 1) % capacity == r.tail_cached)) [
        | inl full ↦ rw full (unchanged c _ _ r s tt taking refl)
        | inr room ↦ rw room (
            subst
              (λ (i : ℕ).
                Produced c (Producer.push_tests x) (Producer.publishes (x ∷ [])) r
                  (record r { buffer = update r.buffer i x }))
              (first_slot r s)
              (written c (Producer.push_tests x) r (x ∷ []) s taking refl (room_single r s room)))
      ]
  producer_step-Produced c (Producer.push_asks x) r s ready taking =
      unchanged c _ _ r s (asks-IsReady (Producer.push_loads x) r r.closed tt) taking refl
  producer_step-Produced c (Producer.push_loads x) r s ready taking =
      reloaded c _ _ r s taking tt refl
  producer_step-Produced c (Producer.batch_tests xs) r s ready taking =
      elim (Bool-cases (ltb (free_slots r) (length xs))) [
        | inl full ↦ rw full (unchanged c _ _ r s tt taking refl)
        | inr room ↦ rw room (written c _ r xs s taking refl (room_batch r (length xs) s room))
      ]
  producer_step-Produced c (Producer.batch_asks xs) r s ready taking =
      unchanged c _ _ r s (asks-IsReady (Producer.batch_loads xs) r r.closed tt) taking refl
  producer_step-Produced c (Producer.batch_loads xs) r s ready taking =
      reloaded c _ _ r s taking tt refl
  producer_step-Produced c (Producer.publishes xs) r s ready taking =
      publish c xs r s taking ready.0 ready.1
