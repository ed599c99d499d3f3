-- ===== src/Scanner/Exact.antt =====
-- The walk of app/firewall/scanner.py over a clean value that fits into the budget, and both
-- directions together.
use Prim.Native.String.{◌++◌}
use agentic_firewall.Base.{
  ℕ, zero, suc, ◌+◌, ◌≤◌, ◌≡◌, ◌↔◌, refl, String, false, [], arith, ltb, text_length, text_take,
  if◌then◌else◌, ◌∙◌,
}
use agentic_firewall.Json.{
  Value, Items, Fields, null, bool, number, text, array, object, other, no_items, item, no_fields,
  field,
}
use agentic_firewall.Platform.{Platform}
use agentic_firewall.Scanner.Rules.{Direction}
use agentic_firewall.Scanner.{State, decimal, max_depth, scan_string}
use agentic_firewall.Scanner.Walk.{enter, walk, walk_items, walk_fields, scan_value}
use agentic_firewall.Scanner.Clean.{scan_string_harmless}
use agentic_firewall.Scanner.Sound.{
  cost, cost_items, cost_fields, IsClean, AllClean, FieldsClean, walk_nil,
}

-- A state that a clean part of cost `n` leaves: nothing found, and the cost taken from the budget.
abbrev Kept : ℕ → State → State → Type 0
Kept n st st' = (st'.findings ≡ st.findings) × (st'.stop ≡ false) × (st'.budget + n ≡ st.budget)

enter_clean :
    (n depth : ℕ) (loc : String) (st inside : State)
    → st.stop ≡ false
    → depth ≤ max_depth
    → Kept n st inside
    → Kept n st (enter depth loc st inside)
enter_clean n depth loc st inside going shallow k =
    let e : ltb max_depth depth ≡ false = ground arith in rw (going, e) k

then_clean :
    (m n : ℕ) (st st' rest : State)
    → Kept m st st'
    → Kept n st' rest
    → Kept (m + n) st (if st'.stop then st' else rest)
then_clean m n st st' rest (f, s, b) (g, t, c) = rw s (g ∙ f, t, omega (arith, b, c))

module _ (platform : Platform) (direction : Direction) where
  mutual
    unfolding walk cost IsClean

    walk_clean :
        (v : Value) (loc : String) (depth : ℕ) (st : State)
        → st.stop ≡ false
        → IsClean platform direction v depth
        → cost v ≤ st.budget
        → Kept (cost v) st (walk platform direction v loc depth st)
    walk_clean null loc depth st going c fits =
        enter_clean 0 depth loc st st going c.0 (refl, going, omega arith)
    walk_clean (bool b) loc depth st going c fits =
        enter_clean 0 depth loc st st going c.0 (refl, going, omega arith)
    walk_clean (number n) loc depth st going c fits =
        enter_clean 0 depth loc st st going c.0 (refl, going, omega arith)
    walk_clean (text s) loc depth st going c fits =
        enter_clean (text_length s + 1) depth loc st _ going c.0
          (scan_string_harmless platform direction s loc st going c.1 fits)
    walk_clean (other s) loc depth st going c fits =
        enter_clean (text_length s + 1) depth loc st _ going c.0
          (scan_string_harmless platform direction s loc st going c.1 fits)
    walk_clean (array xs) loc depth st going c fits =
        enter_clean (cost_items xs) depth loc st _ going c.0
          (walk_items_clean xs loc zero depth st going c.1 fits)
    walk_clean (object fs) loc depth st going c fits =
        enter_clean (cost_fields fs) depth loc st _ going c.0
          (walk_fields_clean fs loc depth st going c.1 fits)

    walk_items_clean :
        (xs : Items) (loc : String) (i depth : ℕ) (st : State)
        → st.stop ≡ false
        → AllClean platform direction xs (suc depth)
        → cost_items xs ≤ st.budget
        → Kept (cost_items xs) st (walk_items platform direction xs loc i depth st)
    walk_items_clean no_items loc i depth st going c fits = (refl, going, omega arith)
    walk_items_clean (item v xs) loc i depth st going c fits =
        let loc' : String = loc ++ "[" ++ decimal i ++ "]" in
        let st' : State = walk platform direction v loc' (suc depth) st in
        let k : Kept (cost v) st st' = walk_clean v loc' (suc depth) st going c.0 (omega arith) in
        then_clean (cost v) (cost_items xs) st st' _ k
          (walk_items_clean xs loc (suc i) depth st' k.1 c.1 (omega (arith, k.2)))

    walk_fields_clean :
        (fs : Fields) (loc : String) (depth : ℕ) (st : State)
        → st.stop ≡ false
        → FieldsClean platform direction fs (suc depth)
        → cost_fields fs ≤ st.budget
        → Kept (cost_fields fs) st (walk_fields platform direction fs loc depth st)
    walk_fields_clean no_fields loc depth st going c fits = (refl, going, omega arith)
    walk_fields_clean (field k v fs) loc depth st going c fits =
        let keyed : State = scan_string platform direction k (loc ++ ".<key>") st in
        let loc' : String = loc ++ "." ++ text_take 40 k in
        let st' : State = walk platform direction v loc' (suc depth) keyed in
        let a : Kept (text_length k + 1) st keyed =
          scan_string_harmless platform direction k (loc ++ ".<key>") st going c.0 (omega arith) in
        let b : Kept (cost v) keyed st' =
          walk_clean v loc' (suc depth) keyed a.1 c.1.0 (omega (arith, a.2)) in
        then_clean (text_length k + 1) (cost v + cost_fields fs) st keyed _ a (
          then_clean (cost v) (cost_fields fs) keyed st' _ b
            (walk_fields_clean fs loc depth st' b.1 c.1.1 (omega (arith, a.2, b.2))))

  -- A value passes the scan exactly if every key and every text in it is harmless, nothing stands
  -- deeper than 20 levels, and its keys and texts, each with one more than its length, fit into
  -- `max_chars` together.
  pub scan_value_nil :
      (max_chars : ℕ) (v : Value) (root : String)
      → (scan_value platform direction max_chars v root ≡ [])
        ↔ (IsClean platform direction v 0 × (cost v ≤ max_chars))
  unfolding scan_value
  scan_value_nil max_chars v root =
      let st : State = record { budget = max_chars; findings = []; stop = false } in
      (
        λ h.
            let (_, clean, _, left) = walk_nil platform direction v root 0 st refl h in
            (clean, omega (arith, left)),
        λ (clean, fits). (walk_clean v root 0 st refl clean fits).0,
      )
