-- ===== src/Scanner/Walk.antt =====
-- `Scanner._walk`, `scan_value` and `ScanResult.summary` of app/firewall/scanner.py.
use Prim.Native.String.{◌++◌}
use agentic_firewall.Base.{
  ℕ, zero, suc, ◌-◌, String, Bool, true, false, List, [], ◌∷◌, map, ltb, length, text_take,
  if◌then◌else◌,
}
use agentic_firewall.Json.{
  Value, Items, Fields, null, bool, number, text, array, object, other, no_items, item, no_fields,
  field,
}
use agentic_firewall.Platform.{Platform}
use agentic_firewall.Scanner.Rules.{Direction}
use agentic_firewall.Scanner.{Finding, State, give_up, decimal, max_depth, scan_string}

-- A container or a leaf below the depth limit; the walk over its parts is handed in.
abbrev pub enter : ℕ → String → State → State → State
enter depth loc st inside =
    if st.stop
    then st
    else if ltb max_depth depth
    then give_up st "excessive_nesting" loc
    else inside

module _ (platform : Platform) (direction : Direction) where
  unfoldable mutual
    pub walk : Value → String → ℕ → State → State
    walk null loc depth st = enter depth loc st st
    walk (bool b) loc depth st = enter depth loc st st
    walk (number n) loc depth st = enter depth loc st st
    walk (text s) loc depth st = enter depth loc st (scan_string platform direction s loc st)
    walk (other s) loc depth st = enter depth loc st (scan_string platform direction s loc st)
    walk (array xs) loc depth st =
        let inside = walk_items xs loc zero depth st in enter depth loc st inside
    walk (object fs) loc depth st =
        let inside = walk_fields fs loc depth st in enter depth loc st inside

    -- The loop over a list from the index `i` on.
    pub walk_items : Items → String → ℕ → ℕ → State → State
    walk_items no_items loc i depth st = st
    walk_items (item v xs) loc i depth st =
        let st' = walk v (loc ++ "[" ++ decimal i ++ "]") (suc depth) st in
        let rest = walk_items xs loc (suc i) depth st' in if st'.stop then st' else rest

    -- The loop over a mapping.
    pub walk_fields : Fields → String → ℕ → State → State
    walk_fields no_fields loc depth st = st
    walk_fields (field k v fs) loc depth st =
        let keyed = scan_string platform direction k (loc ++ ".<key>") st in
        let st' = walk v (loc ++ "." ++ text_take 40 k) (suc depth) keyed in
        let rest = walk_fields fs loc depth st' in
        if keyed.stop then keyed else if st'.stop then st' else rest

  -- The findings of `scan_value`, with the scanner's `max_chars`.
  unfoldable pub scan_value : ℕ → Value → String → List Finding
  scan_value max_chars v root =
      (walk v root zero (record { budget = max_chars; findings = []; stop = false })).findings

-- `ScanResult.blocked`
abbrev pub blocked : List Finding → Bool
blocked [] = false
blocked (f ∷ fs) = true

abbrev first : ℕ → List Finding → List Finding
first zero fs = []
first (suc n) [] = []
first (suc n) (f ∷ fs) = f ∷ first n fs

shown : Finding → String
shown f = f.category ++ "/" ++ f.rule ++ " at " ++ f.location

-- "; ".join(parts)
join : List String → String
join [] = ""
join (s ∷ []) = s
join (s ∷ t ∷ parts) = s ++ "; " ++ join (t ∷ parts)

join_with : List String → String → String
join_with [] last = last
join_with (s ∷ parts) last = s ++ "; " ++ join_with parts last

-- `ScanResult.summary` with its default limit of 5.
unfoldable pub summary : List Finding → String
unfolding shown join join_with
summary fs =
    if ltb 5 (length fs)
    then join_with (map shown (first 5 fs)) ("and " ++ decimal (length fs - 5) ++ " more")
    else join (map shown (first 5 fs))
