-- ===== src/BatchPusher/Delivery.antt =====
-- What the thread of a file in src/main/main.cpp gets into its queue.
use back_tester.Prelude.{
  ℕ, zero, suc, ◌+◌, ◌*◌, ◌/◌, ◌<◌, ◌≡◌, refl, sym, ap, ap₂, ◌∙◌, leb, ltb, true, false, Bool-cases,
  inl, inr, List, [], ◌∷◌, ◌++◌, append_assoc, length, length-append, arith,
}
use back_tester.BlockingQueue.{Queue, Call, new_queue, push_impl, push_batch_impl, pop_impl, step}
use back_tester.BlockingQueue.Fifo.{inputs, closed-inputs}
use back_tester.BatchPusher.{batch_size, flush, push, push_events, producer}

module _ {T : Type 0} where
  -- The first items, and the calls of a sequence that are not `pop`.
  unfoldable pub take : ℕ → List T → List T
  take zero xs = []
  take (suc n) [] = []
  take (suc n) (x ∷ xs) = x ∷ take n xs

  unfoldable pub without_pops : List (Call T) → List (Call T)
  without_pops [] = []
  without_pops (Call.pop ∷ cs) = without_pops cs
  without_pops (Call.push x ∷ cs) = Call.push x ∷ without_pops cs
  without_pops (Call.push_batch xs ∷ cs) = Call.push_batch xs ∷ without_pops cs
  without_pops (Call.close ∷ cs) = Call.close ∷ without_pops cs

  -- What calls put into an open queue.
  put_in : List (Call T) → List T
  put_in [] = []
  put_in (Call.push x ∷ cs) = x ∷ put_in cs
  put_in (Call.push_batch xs ∷ cs) = xs ++ put_in cs
  put_in (Call.pop ∷ cs) = put_in cs
  put_in (Call.close ∷ cs) = []

  abbrev open_queue : List T → Queue T
  open_queue xs = record { queue = xs; closed = false }

  -- The pops between them make no difference.
  inputs-put_in :
      (cs : List (Call T)) (xs : List T) → inputs cs (open_queue xs) ≡ put_in (without_pops cs)
  unfolding inputs put_in without_pops step push_impl push_batch_impl pop_impl
  inputs-put_in [] xs = refl
  inputs-put_in (Call.push x ∷ cs) xs = ap (λ r. x ∷ r) (inputs-put_in cs (xs ++ x ∷ []))
  inputs-put_in (Call.push_batch b ∷ cs) xs = ap (λ r. b ++ r) (inputs-put_in cs (xs ++ b))
  inputs-put_in (Call.pop ∷ cs) [] = inputs-put_in cs []
  inputs-put_in (Call.pop ∷ cs) (x ∷ xs) = inputs-put_in cs xs
  inputs-put_in (Call.close ∷ cs) xs =
      (closed-inputs cs (record { queue = xs; closed = true }) refl).0

  take-append : (xs ys : List T) (n : ℕ) → take (length xs + n) (xs ++ ys) ≡ xs ++ take n ys
  unfolding take
  take-append [] ys n = ap (λ (k : ℕ). take k ys) (omega arith)
  take-append (x ∷ xs) ys n =
      let shifted : suc (length xs) + n ≡ suc (length xs + n) = omega arith in
      ap (λ (k : ℕ). take k (x ∷ (xs ++ ys))) shifted ∙ ap (λ r. x ∷ r) (take-append xs ys n)

  push-full :
      (e : T) (batch : List T)
      → leb batch_size (length (batch ++ e ∷ [])) ≡ true
      → push false e batch ≡ (Call.push_batch (batch ++ e ∷ []) ∷ [], [])
  unfolding push flush
  push-full e batch full =
      let some_items : ltb 0 (length (batch ++ e ∷ [])) ≡ true = ground arith in
      rw (full, some_items) refl

  push-room :
      (e : T) (batch : List T)
      → leb batch_size (length (batch ++ e ∷ [])) ≡ false
      → push false e batch ≡ ([], batch ++ e ∷ [])
  unfolding push
  push-room e batch room = rw room refl

  put_in-push_events :
      (es batch : List T) (after : List (Call T))
      → length batch < batch_size
      → put_in after ≡ []
      → put_in ((push_events es batch).0 ++ after)
        ≡ take (batch_size * ((length batch + length es) / batch_size)) (batch ++ es)
  unfolding push_events put_in take
  put_in-push_events [] batch after room nothing =
      let none_full : batch_size * ((length batch + 0) / batch_size) ≡ 0 = omega (arith, room) in
      rw none_full nothing
  put_in-push_events (e ∷ es) batch after room nothing =
      elim (Bool-cases (leb batch_size (length (batch ++ e ∷ [])))) [
        | inl full ↦
            let size : length (batch ++ e ∷ []) ≡ batch_size =
              ground (arith, length-append batch (e ∷ [])) in
            let count : batch_size * ((length batch + suc (length es)) / batch_size)
                ≡ length (batch ++ e ∷ []) + batch_size * (length es / batch_size) =
              omega (arith, length-append batch (e ∷ [])) in
            rw (push-full e batch full, count)
              (ap (λ r. (batch ++ e ∷ []) ++ r)
                  (put_in-push_events es [] after (omega arith) nothing
                    ∙ ap (λ (k : ℕ). take (batch_size * (k / batch_size)) es) (omega arith))
                ∙ sym (take-append (batch ++ e ∷ []) es (batch_size * (length es / batch_size)))
                ∙ ap (take (length (batch ++ e ∷ []) + batch_size * (length es / batch_size)))
                    (append_assoc batch (e ∷ []) es))
        | inr more ↦
            let size : length (batch ++ e ∷ []) < batch_size = ground arith in
            rw (push-room e batch more) (
              put_in-push_events es (batch ++ e ∷ []) after size nothing
              ∙ ap (λ (k : ℕ). take (batch_size * (k / batch_size)) ((batch ++ e ∷ []) ++ es))
                  (omega (arith, length-append batch (e ∷ [])))
              ∙ ap (take (batch_size * ((length batch + suc (length es)) / batch_size)))
                  (append_assoc batch (e ∷ []) es))
      ]

  -- However the pops of the merger come between its calls, the thread of a file gets the first events
  -- into the queue, as many as fill whole batches of 256, in their order; the events after the last
  -- full batch never get there.
  pub inputs-producer :
      (cs : List (Call T)) (es : List T)
      → without_pops cs ≡ producer es
      → inputs cs new_queue ≡ take (batch_size * (length es / batch_size)) es
  unfolding producer put_in
  inputs-producer cs es h =
      inputs-put_in cs []
      ∙ ap put_in h
      ∙ put_in-push_events es [] (Call.close ∷ (flush true (push_events es []).1).0) (omega arith)
          refl
      ∙ ap (λ (k : ℕ). take (batch_size * (k / batch_size)) es) (omega arith)

  without_pops-append :
      (xs ys : List (Call T)) → without_pops (xs ++ ys) ≡ without_pops xs ++ without_pops ys
  unfolding without_pops
  without_pops-append [] ys = refl
  without_pops-append (Call.pop ∷ xs) ys = without_pops-append xs ys
  without_pops-append (Call.push x ∷ xs) ys = ap (λ r. Call.push x ∷ r) (without_pops-append xs ys)
  without_pops-append (Call.push_batch b ∷ xs) ys =
      ap (λ r. Call.push_batch b ∷ r) (without_pops-append xs ys)
  without_pops-append (Call.close ∷ xs) ys = ap (λ r. Call.close ∷ r) (without_pops-append xs ys)

  without_pops-push_events :
      (es batch : List T) → without_pops (push_events es batch).0 ≡ (push_events es batch).0
  unfolding push_events without_pops
  without_pops-push_events [] batch = refl
  without_pops-push_events (e ∷ es) batch =
      elim (Bool-cases (leb batch_size (length (batch ++ e ∷ [])))) [
        | inl full ↦
            rw (push-full e batch full)
              (ap (λ r. Call.push_batch (batch ++ e ∷ []) ∷ r) (without_pops-push_events es []))
        | inr room ↦ rw (push-room e batch room) (without_pops-push_events es (batch ++ e ∷ []))
      ]

  flush-closed : (batch : List T) → (flush true batch).0 ≡ []
  unfolding flush
  flush-closed batch = elim (Bool-cases (ltb 0 (length batch))) [
    | inl some_items ↦ rw some_items refl
    | inr empty ↦ rw empty refl
  ]

  without_pops-producer : (es : List T) → without_pops (producer es) ≡ producer es
  unfolding producer without_pops
  without_pops-producer es =
      let (calls, batch) = push_events es [] in
      without_pops-append calls (Call.close ∷ (flush true batch).0)
      ∙ ap₂ (λ xs ys. xs ++ Call.close ∷ ys) (without_pops-push_events es [])
          (ap without_pops (flush-closed batch) ∙ sym (flush-closed batch))

  -- With no pop in between.
  pub inputs-alone :
      (es : List T)
      → inputs (producer es) new_queue ≡ take (batch_size * (length es / batch_size)) es
  inputs-alone es = inputs-producer (producer es) es (without_pops-producer es)
