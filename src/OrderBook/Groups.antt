-- ===== src/OrderBook/Groups.antt =====
-- The groups of levels that `print_snapshot` of src/order_book/OrderBook.hpp prints.
use native.Mathlib.Nat.{div-add-mod, mod-lt}
use back_tester.Prelude.{
  ℕ, zero, suc, ◌+◌, ◌-◌, ◌*◌, ◌/◌, ◌%◌, ◌^◌, ◌≤◌, ◌<◌, min, ltb, ◌≡◌, refl, sym, ap, ap₂, subst,
  ◌∙◌, Bool-cases, inl, inr, List, [], ◌∷◌, ◌++◌, map, length, All, if◌then◌else◌, arith,
}
use back_tester.OrderBook.{word, group_row, group_rows, per_group, grouped}
use back_tester.OrderBook.Slices.{
  Level, slice, summary, drop, drop_all, drop-min, length-slice, slice-append-drop, row_slice,
  drop_zero,
}

abbrev pub concat : List (List Level) → List Level
concat [] = []
concat (xs ∷ xss) = xs ++ concat xss

-- The levels of the group `g`.
abbrev part_of : ℕ → ℕ → List Level → List Level
part_of g k levels = slice (min ((g + 1) * k) (length levels) - g * k) (g * k) levels

-- The indices of a group do not wrap.
group_row-part_of :
    (g k : ℕ) (levels : List Level)
    → 0 < k
    → k ≤ length levels
    → length levels ≤ 2 ^ 63
    → g * k < length levels
    → group_row g k levels ≡ summary (part_of g k levels)
unfolding group_row
group_row-part_of g k levels pos_k few small h =
    let next : (g + 1) * k ≡ g * k + k = grind arith in
    let count : g ≤ g * k = grind arith in
    let end = min ((g + 1) * k) (length levels) in
    let start_fits : g * k % word ≡ g * k = omega (arith, h) in
    let index_fits : (g + 1) % word ≡ g + 1 = omega (arith, h, count) in
    let next_fits : (g + 1) * k % word ≡ (g + 1) * k = omega (arith, h, next) in
    let end_fits : (end + word - 1) % word ≡ end - 1 = omega (arith, h, next) in
    rw (index_fits, start_fits, next_fits, end_fits)
      (row_slice (g * k) end (end - g * k - 1) levels (omega (arith, h, next)))

abbrev parts_from : ℕ → ℕ → ℕ → List Level → List (List Level)
parts_from zero g k levels = []
parts_from (suc n) g k levels =
    let rest = parts_from n (suc g) k levels in
    if ltb (g * k) (length levels) then part_of g k levels ∷ rest else []

group_rows-parts :
    (n g k : ℕ) (levels : List Level)
    → 0 < k
    → k ≤ length levels
    → length levels ≤ 2 ^ 63
    → g * k < length levels + k
    → group_rows n g k levels ≡ map summary (parts_from n g k levels)
unfolding group_rows
group_rows-parts zero g k levels pos_k few small h = refl
group_rows-parts (suc n) g k levels pos_k few small h =
    let fits : g * k % word ≡ g * k = omega (arith, h) in
    let same = ap (λ (m : ℕ). ltb m (length levels)) fits in
    elim (Bool-cases (ltb (g * k) (length levels))) [
      | inl more ↦
          let inside : g * k < length levels = ground (arith, more) in
          let next : suc g * k ≡ g * k + k = grind arith in
          rw (same ∙ more, more)
            (ap₂ (λ a b. a ∷ b) (group_row-part_of g k levels pos_k few small inside)
              (group_rows-parts n (suc g) k levels pos_k few small (omega (arith, next, inside))))
      | inr done ↦ rw (same ∙ done, done) refl
    ]

length-parts_from : (n g k : ℕ) (levels : List Level) → length (parts_from n g k levels) ≤ n
length-parts_from zero g k levels = omega arith
length-parts_from (suc n) g k levels = ground (arith, length-parts_from n (suc g) k levels)

-- A group is not empty and has at most `k` levels.
abbrev pub IsGroup : ℕ → List Level → Type 0
IsGroup k part = (0 < length part) × (length part ≤ k)

parts_from-IsGroup :
    (n g k : ℕ) (levels : List Level) → 0 < k → All (IsGroup k) (parts_from n g k levels)
parts_from-IsGroup zero g k levels pos_k = tt
parts_from-IsGroup (suc n) g k levels pos_k = elim (Bool-cases (ltb (g * k) (length levels))) [
  | inl more ↦
      let h : g * k < length levels = ground (arith, more) in
      let size = min ((g + 1) * k) (length levels) - g * k in
      let bounds : (0 < size) × (size ≤ k) = (grind arith, grind arith) in
      rw more
        (rw (length-slice size (g * k) levels) bounds, parts_from-IsGroup n (suc g) k levels pos_k)
  | inr done ↦ rw done tt
]

concat-parts_from :
    (n g k : ℕ) (levels : List Level)
    → length levels ≤ (g + n) * k
    → concat (parts_from n g k levels) ≡ drop (g * k) levels
concat-parts_from zero g k levels h = sym (drop_all (g * k) levels (grind arith))
concat-parts_from (suc n) g k levels h = elim (Bool-cases (ltb (g * k) (length levels))) [
  | inl more ↦
      let i : g * k < length levels = ground (arith, more) in
      let end = min ((g + 1) * k) (length levels) in
      let size = end - g * k in
      let reach : g * k + size ≡ end = grind arith in
      rw more (
        ap (λ r. part_of g k levels ++ r)
          (concat-parts_from n (suc g) k levels (grind arith)
            ∙ ap (λ (j : ℕ). drop j levels) (grind arith)
            ∙ drop-min ((g + 1) * k) levels
            ∙ ap (λ (j : ℕ). drop j levels) (sym reach))
        ∙ slice-append-drop size (g * k) levels (omega (arith, reach)))
  | inr done ↦ rw done (sym (drop_all (g * k) levels (ground (arith, done))))
]

per_group-exact : (n g : ℕ) → 0 < g → n + g ≤ 2 ^ 64 → per_group n g ≡ (n + g - 1) / g
per_group-exact n g h fits =
    let e : (n + g + word - 1) % word ≡ n + g - 1 = omega (arith, h, fits) in
    ap (λ (m : ℕ). m / g) e

per_group-covers : (n g : ℕ) → 0 < g → n + g ≤ 2 ^ 64 → n ≤ g * per_group n g
per_group-covers n g h fits =
    let e = div-add-mod (n + g - 1) g in
    let lt = mod-lt (n + g - 1) h in rw (per_group-exact n g h fits) (omega (arith, e, lt))

per_group-le : (n g : ℕ) → 0 < n → 0 < g → n + g ≤ 2 ^ 64 → per_group n g ≤ n
per_group-le n zero some_level h fits = absurd (omega (arith, h))
per_group-le n (suc g) some_level h fits =
    let q = (n + suc g - 1) / suc g in
    let e = div-add-mod (n + suc g - 1) (suc g) in
    rw (per_group-exact n (suc g) h fits) (grind (arith, e))

group_rows-nil : (n g k : ℕ) → group_rows n g k [] ≡ []
unfolding group_rows
group_rows-nil zero g k = refl
group_rows-nil (suc n) g k = ground arith

pos_factor : (g k n : ℕ) → suc n ≤ g * k → 0 < k
pos_factor g zero n h = absurd (omega arith)
pos_factor g (suc k) n h = omega arith

-- What `print_snapshot` shows of the levels of a side, for `group_by_levels` other than 0, if the number
-- of levels is at most 2 ^ 63 and with `group_by_levels` at most 2 ^ 64: there are groups of consecutive
-- levels, none empty and none with more than ceil(levels / group_by_levels) of them, which together are
-- all levels in order; they are at most `group_by_levels` many, and a row for each shows its first and
-- last price and its total quantity modulo 2 ^ 64.
pub grouped-covers :
    (group_by_levels : ℕ) (levels : List Level)
    → 0 < group_by_levels
    → length levels ≤ 2 ^ 63
    → length levels + group_by_levels ≤ 2 ^ 64
    → (parts : List (List Level)) × (concat parts ≡ levels)
      × (length parts ≤ group_by_levels)
      × All (IsGroup ((length levels + group_by_levels - 1) / group_by_levels)) parts
      × (grouped group_by_levels levels ≡ map summary parts)
unfolding grouped
grouped-covers g [] h small fits = ([], refl, omega arith, tt, group_rows-nil g 0 _)
grouped-covers g (lv ∷ levels) h small fits =
    let n = length (lv ∷ levels) in
    let k = per_group n g in
    let covers = per_group-covers n g h fits in
    let pos_k : 0 < k = pos_factor g k (length levels) covers in
    (
      parts_from g 0 k (lv ∷ levels),
      concat-parts_from g 0 k (lv ∷ levels) (omega (arith, covers)) ∙ drop_zero k (lv ∷ levels),
      length-parts_from g 0 k (lv ∷ levels),
      subst (λ (m : ℕ). All (IsGroup m) (parts_from g 0 k (lv ∷ levels)))
          (per_group-exact n g h fits) (parts_from-IsGroup g 0 k (lv ∷ levels) pos_k),
      group_rows-parts g 0 k (lv ∷ levels) pos_k (per_group-le n g (omega arith) h fits) small
          (omega (arith, pos_k)),
    )
