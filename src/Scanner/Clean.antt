-- ===== src/Scanner/Clean.antt =====
-- What it takes for `scan_value` of app/firewall/scanner.py to find nothing.
use agentic_firewall.Base.{
  ℕ, ◌+◌, ◌≤◌, ◌≡◌, ◌≢◌, ◌↔◌, refl, inl, inr, String, false, List, [], ◌∷◌, ◌++◌, arith, ltb, codes,
  text_length, All, Bool-cases,
}
use agentic_firewall.Platform.{Platform}
use agentic_firewall.Scanner.Rules.{Direction, Rule, rules_for}
use agentic_firewall.Scanner.{
  Finding, State, has_flagged, normalize, apply_rules, scan_text, give_up, scan_string,
}

append_nil : (fs gs : List Finding) → fs ++ gs ≡ [] → (fs ≡ []) × (gs ≡ [])
append_nil [] gs h = (refl, h)
append_nil (f ∷ fs) gs h = cc

cons_ne_nil : (f : Finding) (fs : List Finding) → f ∷ fs ≢ []
cons_ne_nil f fs h = cc

pub append_cons_ne_nil : (fs : List Finding) (f : Finding) → fs ++ f ∷ [] ≢ []
append_cons_ne_nil [] f h = cc
append_cons_ne_nil (g ∷ fs) f h = cc

append_nil_right : (fs gs : List Finding) → gs ≡ [] → fs ++ gs ≡ fs
append_nil_right [] gs h = h
append_nil_right (f ∷ fs) gs h = rw (append_nil_right fs gs h)

module _ (platform : Platform) (direction : Direction) where
  -- No hidden character in the text, and no rule of the direction that matches what it normalises to.
  abbrev pub IsHarmless : String → Type 0
  IsHarmless s =
      (has_flagged (codes s) ≡ false)
      × All (λ (r : Rule). platform.search r.pattern (normalize platform s) ≡ false)
          (rules_for direction)

  apply_rules_nil :
      (rules : List Rule) (norm : List ℕ) (loc : String)
      → (apply_rules platform rules norm loc ≡ [])
        ↔ All (λ (r : Rule). platform.search r.pattern norm ≡ false) rules
  unfolding apply_rules
  apply_rules_nil [] norm loc = (λ h. tt, λ h. refl)
  apply_rules_nil (r ∷ rules) norm loc =
      let (to, from) = apply_rules_nil rules norm loc in
      elim (Bool-cases (platform.search r.pattern norm)) [
        | inl e ↦ (λ h. ground arith, λ h. cc (e, h.0))
        | inr e ↦ (λ h. (e, to (rw (e, apply_rules) at h)), λ h. rw (e, apply_rules) (from h.1))
      ]

  scan_text_nil : (s loc : String) → (scan_text platform s direction loc ≡ []) ↔ IsHarmless s
  unfolding scan_text
  scan_text_nil s loc =
      let (to, from) = apply_rules_nil (rules_for direction) (normalize platform s) loc in
      elim (Bool-cases (has_flagged (codes s))) [
        | inl e ↦ (λ h. absurd (cons_ne_nil _ _ (rw e at h)), λ h. cc (e, h.0))
        | inr e ↦ (λ h. (e, to (rw e at h)), λ h. rw e (from h.1))
      ]

  -- A text at a place that the walk reaches: within the budget, its findings are added; without,
  -- the scan stops with one finding more.
  pub scan_string_nil :
      (s loc : String) (st : State)
      → st.stop ≡ false
      → (scan_string platform direction s loc st).findings ≡ []
      → (st.findings ≡ [])
        × IsHarmless s
        × ((scan_string platform direction s loc st).stop ≡ false)
        × ((scan_string platform direction s loc st).budget + (text_length s + 1) ≡ st.budget)
  unfolding scan_string give_up
  scan_string_nil s loc st going h = elim (Bool-cases (ltb st.budget (text_length s + 1))) [
    | inl e ↦ absurd (append_cons_ne_nil _ _ (rw e at h))
    | inr e ↦
        let h' : st.findings ++ scan_text platform s direction loc ≡ [] = rw e at h in
        let (old, new) = append_nil st.findings (scan_text platform s direction loc) h' in
        rw e (old, (scan_text_nil s loc).0 new, going, ground arith)
  ]

  pub scan_string_harmless :
      (s loc : String) (st : State)
      → st.stop ≡ false
      → IsHarmless s
      → text_length s + 1 ≤ st.budget
      → ((scan_string platform direction s loc st).findings ≡ st.findings)
        × ((scan_string platform direction s loc st).stop ≡ false)
        × ((scan_string platform direction s loc st).budget + (text_length s + 1) ≡ st.budget)
  unfolding scan_string
  scan_string_harmless s loc st going clean fits =
      let e : ltb st.budget (text_length s + 1) ≡ false = ground arith in
      rw e (
        append_nil_right st.findings (scan_text platform s direction loc)
            ((scan_text_nil s loc).1 clean),
        going,
        omega arith,
      )
