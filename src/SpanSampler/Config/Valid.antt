-- ===== src/SpanSampler/Config/Valid.antt =====
-- The rules that `SpanSampler::configure` of src/sample.cpp keeps.
use mathlib.Core.Path.{subst}
use dd_opentracing_cpp.Prelude.{
  sym, ◌∙◌, append-nil, append_assoc, ℕ, ◌≡◌, refl, true, false, Option, none, some, List, [], ◌∷◌,
  ◌++◌, arith, length, Text, ◌⊎◌, inl, inr, Option-cases, Bool-cases,
}
use dd_opentracing_cpp.Floats.{Floats}
use dd_opentracing_cpp.Json.{Json}
use dd_opentracing_cpp.Limiter.{make_limiter_per_second}
use dd_opentracing_cpp.SpanSampler.{RuleConfig, Rule, make_rule}
use dd_opentracing_cpp.SpanSampler.Config.{
  Complaint, unable_to_parse, Checked, ok, invalid, read_rule, read_rules, configure_spans,
}

Checked-cases {ℓ} :
    {A : Type ℓ} (r : Checked A) → ((a : A) × (r ≡ ok a)) ⊎ ((e : Complaint) × (r ≡ invalid e))
Checked-cases (ok a) = inl (a, refl)
Checked-cases (invalid e) = inr (e, refl)

module _ {D : Type 0} (fl : Floats D) where
  -- The sample rate lies between 0 and 1, and the limit is positive or absent.
  pub record IsValidConfig (config : RuleConfig D) : Type 0 where
    pub rate_low : fl.le fl.rate_zero config.sample_rate ≡ true
    pub rate_high : fl.le config.sample_rate fl.rate_one ≡ true
    pub limit_positive : fl.le config.max_per_second fl.rate_zero ≡ false

  -- `0.0 <= 1.0 <= 1.0`, and NaN is not below anything.
  pub record Comparisons : Type 0 where
    pub zero_le_one : fl.le fl.rate_zero fl.rate_one ≡ true
    pub one_le_one : fl.le fl.rate_one fl.rate_one ≡ true
    pub nan_incomparable : (a : D) → fl.le fl.nan a ≡ false

  -- A rule is valid if its configuration is, and has a limiter exactly if that sets a limit.
  pub record IsValidRule (rule : Rule D) : Type 0 where
    pub config_valid : IsValidConfig rule.config
    pub limiter_kept :
        ((fl.is_nan rule.config.max_per_second ≡ true) × (rule.limiter ≡ none))
        ⊎ ((fl.is_nan rule.config.max_per_second ≡ false)
            × ((now : ℕ) × (rule.limiter
                  ≡ some (make_limiter_per_second fl now rule.config.max_per_second))))

  abbrev pub AllValid : List (Rule D) → Type 0
  AllValid [] = Unit {0}
  AllValid (rule ∷ rules) = IsValidRule rule × AllValid rules

  AllValid-append :
      (rules : List (Rule D)) (rule : Rule D)
      → AllValid rules
      → IsValidRule rule
      → AllValid (rules ++ rule ∷ [])
  AllValid-append [] rule h v = (v, tt)
  AllValid-append (r ∷ rules) rule h v = (h.0, AllValid-append rules rule h.1 v)

  make_rule-IsValid :
      (config : RuleConfig D) (now : ℕ)
      → IsValidConfig config
      → IsValidRule (make_rule fl config now)
  unfolding make_rule
  make_rule-IsValid config now v = record {
    config_valid = v;
    limiter_kept = elim (Bool-cases (fl.is_nan config.max_per_second)) [
      | inl e ↦ inl (e, rw e)
      | inr e ↦ inr (e, (now, rw e))
    ];
  }

module _ {J D : Type 0} (fl : Floats D) (js : Json J D) where
  read_rule-IsValid :
      (item : J) (config : RuleConfig D)
      → Comparisons fl
      → read_rule fl js item ≡ ok config
      → IsValidConfig fl config × (config.text ≡ js.dump item)
  unfolding read_rule
  read_rule-IsValid item config c e =
      ground (arith, c.zero_le_one, c.one_le_one, c.nan_incomparable fl.rate_zero)

  read_rules-AllValid :
      (clock : ℕ → ℕ) (items : List J) (rules : List (Rule D)) (log : List Complaint)
      → Comparisons fl
      → AllValid fl rules
      → AllValid fl (read_rules fl js clock items rules log).0
  unfolding read_rules
  read_rules-AllValid clock [] rules log c h = h
  read_rules-AllValid clock (item ∷ items) rules log c h =
      elim (Checked-cases (read_rule fl js item)) [
        | inl (config, e) ↦
            rw (e, read_rules)
              (read_rules-AllValid clock items
                (rules ++ make_rule fl config (clock (length rules)) ∷ []) log c
                (AllValid-append fl rules (make_rule fl config (clock (length rules))) h (
                  make_rule-IsValid fl config (clock (length rules))
                    (read_rule-IsValid item config c e).0)))
        | inr (complaint, e) ↦
            rw (e, read_rules) (read_rules-AllValid clock items rules (log ++ complaint ∷ []) c h)
      ]

  -- Each item has given one rule, whose text is that of the item, or one complaint.
  pub data Accounted : List J → List (Rule D) → List Complaint → Type 0 where
    all_read : Accounted [] [] []
    kept :
        {item : J} {items : List J} {rule : Rule D} {rules : List (Rule D)} {log : List Complaint}
        → (rule.config).text ≡ js.dump item
        → Accounted items rules log
        → Accounted (item ∷ items) (rule ∷ rules) log
    refused :
        {item : J} {items : List J} {e : Complaint} {rules : List (Rule D)} {log : List Complaint}
        → Accounted items rules log
        → Accounted (item ∷ items) rules (e ∷ log)

  -- What the items add to the rules and to the log.
  record Adds (items : List J) (rules : List (Rule D)) (log : List Complaint)
      (r : List (Rule D) × List Complaint) : Type 0 where
    new_rules : List (Rule D)
    new_lines : List Complaint
    accounted : Accounted items new_rules new_lines
    rules_added : r.0 ≡ rules ++ new_rules
    lines_added : r.1 ≡ log ++ new_lines

  read_rules-Adds :
      (clock : ℕ → ℕ) (items : List J) (rules : List (Rule D)) (log : List Complaint)
      → Comparisons fl
      → Adds items rules log (read_rules fl js clock items rules log)
  unfolding read_rules make_rule
  read_rules-Adds clock [] rules log c = record {
    new_rules = [];
    new_lines = [];
    accounted = all_read;
    rules_added = sym (append-nil rules);
    lines_added = sym (append-nil log);
  }
  read_rules-Adds clock (item ∷ items) rules log c = elim (Checked-cases (read_rule fl js item)) [
    | inl (config, e) ↦
        let rule = make_rule fl config (clock (length rules)) in
        let rest = read_rules-Adds clock items (rules ++ rule ∷ []) log c in
        rw (e, read_rules)
          (record {
            new_rules = rule ∷ rest.new_rules;
            new_lines = rest.new_lines;
            accounted = kept (read_rule-IsValid item config c e).1 rest.accounted;
            rules_added = rest.rules_added ∙ append_assoc rules (rule ∷ []) rest.new_rules;
            lines_added = rest.lines_added;
          })
    | inr (complaint, e) ↦
        let rest = read_rules-Adds clock items rules (log ++ complaint ∷ []) c in
        rw (e, read_rules)
          (record {
            new_rules = rest.new_rules;
            new_lines = complaint ∷ rest.new_lines;
            accounted = refused rest.accounted;
            rules_added = rest.rules_added;
            lines_added = rest.lines_added ∙ append_assoc log (complaint ∷ []) rest.new_lines;
          })
  ]

  -- What `configure` makes of a text: nothing and a complaint, or the rules of the items.
  abbrev pub AccountedFor : Option J → List (Rule D) × List Complaint → Type 0
  AccountedFor none r = (r.0 ≡ []) × (r.1 ≡ unable_to_parse ∷ [])
  AccountedFor (some config_json) r = Accounted (js.items config_json) r.0 r.1

  from_nothing :
      (items : List J) (r : List (Rule D) × List Complaint)
      → Adds items [] [] r
      → Accounted items r.0 r.1
  from_nothing items r a =
      subst (λ rules. Accounted items rules r.1) (sym a.rules_added)
        (subst (λ log. Accounted items a.new_rules log) (sym a.lines_added) a.accounted)

  -- Where `0.0 <= 1.0 <= 1.0` and NaN is not below any number: whatever the text, every rule that
  -- `configure` keeps has a sample rate between 0 and 1, a limit that is absent or positive, and a
  -- limiter made from the limit exactly if there is one. Each element of the array gives, in order,
  -- one rule, which has the element's text, or one line in the log; a text that is not JSON gives
  -- no rule and one line.
  pub configure_spans-AllValid :
      (clock : ℕ → ℕ) (raw_json : Text)
      → Comparisons fl
      → AllValid fl (configure_spans fl js clock raw_json).0
        × AccountedFor (js.parse raw_json) (configure_spans fl js clock raw_json)
  unfolding configure_spans
  configure_spans-AllValid clock raw_json c = elim (Option-cases (js.parse raw_json)) [
    | inl e ↦ rw (e, configure_spans) (tt, (refl, refl))
    | inr (config_json, e) ↦
        let items = js.items config_json in
        rw (e, configure_spans)
          (
            read_rules-AllValid clock items [] [] c tt,
            from_nothing items _ (read_rules-Adds clock items [] [] c),
          )
  ]
