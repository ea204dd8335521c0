-- ===== src/Moderation.antt =====
-- app/services/moderation_service.py: the rules that a customer's message is held against. The engine
-- of regular expressions is a parameter, with the alarm that cuts a search off after 100 ms. The
-- program runs on one thread, so the branch for other threads is left out.
use mathlib.Core.List.{reverse}
use kasb_o_kar_hoshmand.Base.{
  ℕ, String, Bool, true, false, not, ◌&&◌, ◌||◌, Option, none, some, List, [], ◌∷◌, ◌++◌, ltb, ◌==◌,
  if◌then◌else◌, length, take, where_rows, sort_on,
}
use kasb_o_kar_hoshmand.Base.Texts.{same_text}
use kasb_o_kar_hoshmand.Base.Chars.{Text, codes}
use kasb_o_kar_hoshmand.Base.Table.{get_row, save, delete_row, next_key}
use kasb_o_kar_hoshmand.Models.{
  ModerationRule-Keyed, ModerationRule, ModerationAction, Db, Result, ok, raised, value_error,
  ◌>>=◌,
}

abbrev pub max_pattern_length : ℕ
max_pattern_length = 200

abbrev pub max_text_length : ℕ
max_text_length = 4096

-- `part in text`
abbrev pub begins_with : Text → Text → Bool
begins_with [] t = true
begins_with (p ∷ ps) [] = false
begins_with (p ∷ ps) (c ∷ cs) = p == c && begins_with ps cs

abbrev pub contains : Text → Text → Bool
contains part [] = begins_with part []
contains part (c ∷ cs) = begins_with part (c ∷ cs) || contains part cs

-- the rest of `\([^()]*[+*][^()]*\)[+*{]` after its bracket; `seen` says whether a quantifier stood
abbrev pub closes_quantified : Bool → Text → Bool
closes_quantified seen [] = false
closes_quantified seen (c ∷ []) = false
closes_quantified seen (c ∷ d ∷ cs) =
    if c == 41
    then seen && (d == 43 || (d == 42 || d == 123))
    else not (c == 40) && closes_quantified (seen || (c == 43 || c == 42)) (d ∷ cs)

-- `_NESTED_QUANTIFIER_RE.search`
abbrev pub nests_quantifier : Text → Bool
nests_quantifier [] = false
nests_quantifier (c ∷ cs) = c == 40 && closes_quantified false cs || nests_quantifier cs

unfoldable pub get_active_rules : Db → List ModerationRule
get_active_rules db = where_rows (λ r. r.is_active) db.rules

unfoldable pub get_all_rules : Db → List ModerationRule
get_all_rules db = reverse (sort_on (λ r. r.id) db.rules)

unfoldable pub get_by_id : ℕ → Db → Option ModerationRule
get_by_id rule_id db = get_row rule_id db.rules

unfoldable pub toggle_active : ModerationRule → Db → Db
toggle_active rule db = record db {
  rules = save (record rule { is_active = not rule.is_active }) db.rules;
}

unfoldable pub delete_rule : ModerationRule → Db → Db
delete_rule rule db = record db { rules = delete_row rule.id db.rules }

-- What a search ends with.
pub data Search : Type 0 where
  matched unmatched timed_out bad_pattern : Search

pub record Engine : Type 0 where
  pub search : String → Text → Search  -- `re.search`, in either case of letters
  pub compiles : String → Bool  -- `re.compile` raises nothing
  pub lower : String → String

module _ (engine : Engine) where
  open engine use {search, compiles, lower}

  unfoldable pub validate_pattern_safety : String → Bool → Result (Unit {0})
  validate_pattern_safety text is_regex =
      if not is_regex
      then ok tt
      else if ltb max_pattern_length (length (codes text))
      then raised value_error
      else if nests_quantifier (codes text)
      then raised value_error
      else if compiles text
      then ok tt
      else raised value_error

  -- a search that does not end well counts as no match
  unfoldable pub safe_regex_match : String → String → Bool
  safe_regex_match rule_text text = elim (search rule_text (take max_text_length (codes text))) [
    | matched ↦ true
    | unmatched ↦ false
    | timed_out ↦ false
    | bad_pattern ↦ false
  ]

  unfoldable pub rule_matches : String → ModerationRule → Bool
  unfolding safe_regex_match
  rule_matches text rule =
      if rule.is_regex
      then safe_regex_match rule.pattern_text text
      else contains (codes (lower rule.pattern_text)) (codes (lower text))

  abbrev pub first_match : String → List ModerationRule → Option ModerationRule
  first_match text [] = none
  first_match text (rule ∷ rules) =
      let later = first_match text rules in if rule_matches text rule then some rule else later

  unfoldable pub check_text : String → Db → Option ModerationRule
  unfolding rule_matches get_active_rules
  check_text text db = if same_text text "" then none else first_match text (get_active_rules db)

  unfoldable pub create_rule :
      String → Bool → ModerationAction → Option String → Db → Result (ModerationRule × Db)
  unfolding validate_pattern_safety
  create_rule text is_regex action category db = do
    validate_pattern_safety text is_regex >>= λ _.
        (let rule : ModerationRule = record {
          id = next_key db.rules;
          pattern_text = text;
          is_regex = is_regex;
          action = action;
          category = category;
          is_active = true;
        } in
          ok (rule, record db { rules = db.rules ++ rule ∷ [] }))
