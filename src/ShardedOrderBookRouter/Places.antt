-- ===== src/ShardedOrderBookRouter/Places.antt =====
-- What is pending on a shard of src/order_book/ShardedOrderBookRouter.hpp at each place where the owner's
-- thread can stand, across the steps of the shard's worker.
use back_tester.Prelude.{
  ℕ, ◌<◌, ◌≤◌, ◌≡◌, sym, ap, subst, ◌∙◌, ==_iff, Bool, true, false, ◌⊎◌, inl, inr, List, [], ◌∷◌,
  ◌++◌, arith,
}
use back_tester.Event.{MarketDataEvent}
use back_tester.AnomalyLog.{BookAnomalyLog}
use back_tester.BookOps.{BookOps}
use back_tester.ShardedOrderBookRouter.Threads.{Item, Shard, Phase, update}
use back_tester.ShardedOrderBookRouter.Worked.{pending, Worked, rests, applies, fulfils}
use back_tester.ShardedOrderBookRouter.Marks.{IsQuiet}

-- The promise `n` is the last pending item and the only promise, or it is set and nothing is pending.
abbrev pub IsMarked : ℕ → List Item → Bool → Type 0
IsMarked n items set =
    ((items ≡ []) × (set ≡ true))
    ⊎ ((xs : List Item) × (items ≡ xs ++ Item.promise n ∷ []) × IsQuiet xs × (set ≡ false))

pub IsMarked-set :
    {n : ℕ} {items : List Item} {set : Bool} → IsMarked n items set → set ≡ true → items ≡ []
IsMarked-set (inl (e, h)) k = e
IsMarked-set (inr (xs, e, q, h)) k = absurd (cc)

-- What is left when the first of the items has been dealt with.
IsMarked-event :
    (n : ℕ) (d : MarketDataEvent) (items xs : List Item) (set : Bool)
    → Item.event d ∷ items ≡ xs ++ Item.promise n ∷ []
    → IsQuiet xs
    → set ≡ false
    → IsMarked n items set
IsMarked-event n d items [] set e q u = absurd (cc)
IsMarked-event n d items (Item.event x ∷ xs) set e q u = inr (xs, cc, q, u)
IsMarked-event n d items (Item.promise m ∷ xs) set e q u = absurd q

IsMarked-promise :
    (n m : ℕ) (items xs : List Item) (set : ℕ → Bool)
    → Item.promise m ∷ items ≡ xs ++ Item.promise n ∷ []
    → IsQuiet xs
    → IsMarked n items (update set m true n)
IsMarked-promise n m items [] set e q =
    let same : m ≡ n = cc in inl (cc, ground (arith, ==_iff m n, same))
IsMarked-promise n m items (Item.event x ∷ xs) set e q = absurd (cc)
IsMarked-promise n m items (Item.promise x ∷ xs) set e q = absurd q

module _ {B : Type 0} where
  abbrev pub IsPlaced : Phase → Bool → ℕ → ℕ → Shard B → Type 0
  IsPlaced Phase.idle closed n s sh =
      IsQuiet (pending sh) × (closed ≡ true → (pending sh ≡ []) × (sh.queue.closed ≡ true))
  IsPlaced Phase.printing closed n s sh =
      (pending sh ≡ []) × (closed ≡ true → sh.queue.closed ≡ true)
  IsPlaced (Phase.pushing k) closed n s sh =
      (closed ≡ false)
      × (s < k → IsMarked n (pending sh) (sh.fulfilled n))
      × (k ≤ s → IsQuiet (pending sh) × (sh.fulfilled n ≡ false))
  IsPlaced (Phase.waiting k) closed n s sh =
      (closed ≡ false) × IsMarked n (pending sh) (sh.fulfilled n) × (s < k → pending sh ≡ [])
  IsPlaced (Phase.closing k) closed n s sh =
      (closed ≡ true) × IsQuiet (pending sh) × (s < k → sh.queue.closed ≡ true)
  IsPlaced (Phase.joining k) closed n s sh =
      (closed ≡ true) × IsQuiet (pending sh) × (sh.queue.closed ≡ true) × (s < k → pending sh ≡ [])

  module _ ⦃ops : BookOps B⦄ {sh : Shard B} {l : BookAnomalyLog} {sh' : Shard B} where
    empty-Worked : Worked sh l sh' → pending sh ≡ [] → pending sh' ≡ []
    empty-Worked (rests p r f o c) e = p ∙ e
    empty-Worked (applies d p r f o c) e = absurd (cc)
    empty-Worked (fulfils m p r f o c) e = absurd (cc)

    closed-Worked : Worked sh l sh' → sh.queue.closed ≡ true → sh'.queue.closed ≡ true
    closed-Worked (rests p r f o c) e = c ∙ e
    closed-Worked (applies d p r f o c) e = c ∙ e
    closed-Worked (fulfils m p r f o c) e = c ∙ e

    IsQuiet-Worked :
        Worked sh l sh'
        → IsQuiet (pending sh)
        → IsQuiet (pending sh') × (sh'.fulfilled ≡ sh.fulfilled)
    IsQuiet-Worked (rests p r f o c) q = (subst IsQuiet (sym p) q, f)
    IsQuiet-Worked (applies d p r f o c) q = (subst IsQuiet p q, f)
    IsQuiet-Worked (fulfils m p r f o c) q = absurd (subst IsQuiet p q)

    IsMarked-Worked :
        (n : ℕ)
        → Worked sh l sh'
        → IsMarked n (pending sh) (sh.fulfilled n)
        → IsMarked n (pending sh') (sh'.fulfilled n)
    IsMarked-Worked n (rests p r f o c) (inl (e, h)) = inl (p ∙ e, ap (λ g. g n) f ∙ h)
    IsMarked-Worked n (rests p r f o c) (inr (xs, e, q, h)) =
        inr (xs, p ∙ e, q, ap (λ g. g n) f ∙ h)
    IsMarked-Worked n (applies d p r f o c) (inl (e, h)) = absurd (cc)
    IsMarked-Worked n (applies d p r f o c) (inr (xs, e, q, h)) =
        IsMarked-event n d (pending sh') xs (sh'.fulfilled n) (sym p ∙ e) q (ap (λ g. g n) f ∙ h)
    IsMarked-Worked n (fulfils m p r f o c) (inl (e, h)) = absurd (cc)
    IsMarked-Worked n (fulfils m p r f o c) (inr (xs, e, q, h)) =
        subst (λ g. IsMarked n (pending sh') (g n)) (sym f)
          (IsMarked-promise n m (pending sh') xs sh.fulfilled (sym p ∙ e) q)

    pub IsPlaced-Worked :
        (ph : Phase) (closed : Bool) (n s : ℕ)
        → Worked sh l sh'
        → IsPlaced ph closed n s sh
        → IsPlaced ph closed n s sh'
    IsPlaced-Worked Phase.idle closed n s w h =
        ((IsQuiet-Worked w h.0).0, λ k. (empty-Worked w (h.1 k).0, closed-Worked w (h.1 k).1))
    IsPlaced-Worked Phase.printing closed n s w h =
        (empty-Worked w h.0, λ k. closed-Worked w (h.1 k))
    IsPlaced-Worked (Phase.pushing k) closed n s w h = (
      h.0,
      λ b. IsMarked-Worked n w (h.1 b),
      λ a. let q = IsQuiet-Worked w (h.2 a).0 in (q.0, ap (λ g. g n) q.1 ∙ (h.2 a).1),
    )
    IsPlaced-Worked (Phase.waiting k) closed n s w h =
        (h.0, IsMarked-Worked n w h.1, λ b. empty-Worked w (h.2 b))
    IsPlaced-Worked (Phase.closing k) closed n s w h =
        (h.0, (IsQuiet-Worked w h.1).0, λ b. closed-Worked w (h.2 b))
    IsPlaced-Worked (Phase.joining k) closed n s w h =
        (h.0, (IsQuiet-Worked w h.1).0, closed-Worked w h.2, λ b. empty-Worked w (h.3 b))
