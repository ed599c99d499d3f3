-- ===== src/Scanner/Sound.antt =====
-- What a clean value is, and the walk of app/firewall/scanner.py where it finds nothing.
use Prim.Native.String.{◌++◌}
use agentic_firewall.Base.{
  ℕ, zero, suc, ◌+◌, ◌≤◌, ◌≡◌, ◌∙◌, inl, inr, String, false, [], arith, text_take, false≢true, sym,
  ltb, text_length, if◌then◌else◌, Bool-cases,
}
use agentic_firewall.Json.{
  Value, Items, Fields, null, bool, number, text, array, object, other, no_items, item, no_fields,
  field,
}
use agentic_firewall.Platform.{Platform}
use agentic_firewall.Scanner.Rules.{Direction}
use agentic_firewall.Scanner.{State, give_up, decimal, max_depth, scan_string}
use agentic_firewall.Scanner.Walk.{enter, walk, walk_items, walk_fields}
use agentic_firewall.Scanner.Clean.{IsHarmless, scan_string_nil, append_cons_ne_nil}

-- What a value takes of the budget: for each key and each text its length and one more.
unfoldable mutual
  pub cost : Value → ℕ
  cost null = 0
  cost (bool b) = 0
  cost (number n) = 0
  cost (text s) = text_length s + 1
  cost (other s) = text_length s + 1
  cost (array xs) = cost_items xs
  cost (object fs) = cost_fields fs

  pub cost_items : Items → ℕ
  cost_items no_items = 0
  cost_items (item v xs) = cost v + cost_items xs

  pub cost_fields : Fields → ℕ
  cost_fields no_fields = 0
  cost_fields (field k v fs) = (text_length k + 1) + (cost v + cost_fields fs)

module _ (platform : Platform) (direction : Direction) where
  -- Every key and every text is harmless, and nothing stands deeper than the limit.
  unfoldable mutual
    pub IsClean : Value → ℕ → Type 0
    IsClean null depth = (depth ≤ max_depth) × Unit
    IsClean (bool b) depth = (depth ≤ max_depth) × Unit
    IsClean (number n) depth = (depth ≤ max_depth) × Unit
    IsClean (text s) depth = (depth ≤ max_depth) × IsHarmless platform direction s
    IsClean (other s) depth = (depth ≤ max_depth) × IsHarmless platform direction s
    IsClean (array xs) depth = (depth ≤ max_depth) × AllClean xs (suc depth)
    IsClean (object fs) depth = (depth ≤ max_depth) × FieldsClean fs (suc depth)

    pub AllClean : Items → ℕ → Type 0
    AllClean no_items depth = Unit
    AllClean (item v xs) depth = IsClean v depth × AllClean xs depth

    pub FieldsClean : Fields → ℕ → Type 0
    FieldsClean no_fields depth = Unit
    FieldsClean (field k v fs) depth =
        IsHarmless platform direction k × (IsClean v depth × FieldsClean fs depth)

  -- The state behind a part that was scanned with nothing found.
  abbrev pub Passed : Type 0 → ℕ → State → State → Type 0
  Passed Clean n st st' =
      (st.findings ≡ []) × Clean × (st'.stop ≡ false) × (st'.budget + n ≡ st.budget)

  -- One part behind another, the second only if the scan goes on.
  then_nil :
      (A B : Type 0) (m n : ℕ) (st st' rest : State)
      → (st'.findings ≡ [] → Passed A m st st')
      → (st'.stop ≡ false → rest.findings ≡ [] → Passed B n st' rest)
      → (if st'.stop then st' else rest).findings ≡ []
      → Passed (A × B) (m + n) st (if st'.stop then st' else rest)
  then_nil A B m n st st' rest first second h = elim (Bool-cases st'.stop) [
    | inl e ↦ absurd (false≢true (sym (first (rw e at h)).2 ∙ e))
    | inr e ↦
        let (mid, b, on, left') = second e (rw e at h) in
        let (old, a, _, left) = first mid in rw e (old, (a, b), on, omega (arith, left, left'))
  ]

  enter_nil :
      (Clean : Type 0) (n depth : ℕ) (loc : String) (st inside : State)
      → st.stop ≡ false
      → (inside.findings ≡ [] → Passed Clean n st inside)
      → (enter depth loc st inside).findings ≡ []
      → Passed ((depth ≤ max_depth) × Clean) n st (enter depth loc st inside)
  unfolding give_up
  enter_nil Clean n depth loc st inside going within h = elim (Bool-cases (ltb max_depth depth)) [
    | inl e ↦ absurd (append_cons_ne_nil _ _ (rw (going, e) at h))
    | inr e ↦
        let (old, clean, on, left) = within (rw (going, e) at h) in
        rw (going, e) (old, (ground arith, clean), on, left)
  ]

  mutual
    unfolding walk cost IsClean

    pub walk_nil :
        (v : Value) (loc : String) (depth : ℕ) (st : State)
        → st.stop ≡ false
        → (walk platform direction v loc depth st).findings ≡ []
        → Passed (IsClean v depth) (cost v) st (walk platform direction v loc depth st)
    walk_nil null loc depth st going h =
        enter_nil Unit 0 depth loc st st going (λ e. (e, tt, going, omega arith)) h
    walk_nil (bool b) loc depth st going h =
        enter_nil Unit 0 depth loc st st going (λ e. (e, tt, going, omega arith)) h
    walk_nil (number n) loc depth st going h =
        enter_nil Unit 0 depth loc st st going (λ e. (e, tt, going, omega arith)) h
    walk_nil (text s) loc depth st going h =
        enter_nil (IsHarmless platform direction s) (text_length s + 1) depth loc st _ going
          (scan_string_nil platform direction s loc st going) h
    walk_nil (other s) loc depth st going h =
        enter_nil (IsHarmless platform direction s) (text_length s + 1) depth loc st _ going
          (scan_string_nil platform direction s loc st going) h
    walk_nil (array xs) loc depth st going h =
        enter_nil (AllClean xs (suc depth)) (cost_items xs) depth loc st _ going
          (walk_items_nil xs loc zero depth st going) h
    walk_nil (object fs) loc depth st going h =
        enter_nil (FieldsClean fs (suc depth)) (cost_fields fs) depth loc st _ going
          (walk_fields_nil fs loc depth st going) h

    walk_items_nil :
        (xs : Items) (loc : String) (i depth : ℕ) (st : State)
        → st.stop ≡ false
        → (walk_items platform direction xs loc i depth st).findings ≡ []
        → Passed
            (AllClean xs (suc depth))
            (cost_items xs)
            st
            (walk_items platform direction xs loc i depth st)
    walk_items_nil no_items loc i depth st going h = (h, tt, going, omega arith)
    walk_items_nil (item v xs) loc i depth st going h =
        let loc' : String = loc ++ "[" ++ decimal i ++ "]" in
        let st' : State = walk platform direction v loc' (suc depth) st in
        then_nil (IsClean v (suc depth)) (AllClean xs (suc depth)) (cost v) (cost_items xs) st st' _
          (walk_nil v loc' (suc depth) st going) (walk_items_nil xs loc (suc i) depth st') h

    walk_fields_nil :
        (fs : Fields) (loc : String) (depth : ℕ) (st : State)
        → st.stop ≡ false
        → (walk_fields platform direction fs loc depth st).findings ≡ []
        → Passed
            (FieldsClean fs (suc depth))
            (cost_fields fs)
            st
            (walk_fields platform direction fs loc depth st)
    walk_fields_nil no_fields loc depth st going h = (h, tt, going, omega arith)
    walk_fields_nil (field k v fs) loc depth st going h =
        let keyed : State = scan_string platform direction k (loc ++ ".<key>") st in
        let loc' : String = loc ++ "." ++ text_take 40 k in
        let st' : State = walk platform direction v loc' (suc depth) keyed in
        let rest : State = walk_fields platform direction fs loc depth st' in
        then_nil (IsHarmless platform direction k)
          (IsClean v (suc depth) × FieldsClean fs (suc depth)) (text_length k + 1)
          (cost v + cost_fields fs) st keyed _
          (scan_string_nil platform direction k (loc ++ ".<key>") st going)
          (λ on.
            then_nil (IsClean v (suc depth)) (FieldsClean fs (suc depth)) (cost v) (cost_fields fs)
              keyed st' rest (walk_nil v loc' (suc depth) keyed on)
              (walk_fields_nil fs loc depth st'))
          h
