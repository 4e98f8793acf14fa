-- ===== src/Gateway/Config/Valid.antt =====
-- What a validated configuration is.
use ops_terminator.Base.{
  ℕ, suc, false, List, [], ◌∷◌, Option, none, some, ok, >>=-eq-ok, ok-injective, ◌≡◌, ◌≢◌, refl,
  sym, ap, ◌∙◌, subst, text_eq, nat_eq, ==_iff, All, All-imp, arith,
}
use ops_terminator.Base.Text.{Text, bytes, one_of}
use ops_terminator.Models.{new_id}
use ops_terminator.Gateway.Config.{
  GatewayPreset, GatewayConfig, ConfigError, require, require_new, require_presets, keep_previous,
  previous_by_id, trim_preset, check_preset, validate_presets, validate_gateway_config,
  active_gateway_preset,
}

-- A preset that a chat client can be set up from.
pub record IsUsable (p : GatewayPreset) : Type 0 where
  pub named : p.name ≢ []
  pub has_url : p.base_url ≢ []
  pub has_model : p.model ≢ []
  pub has_key : p.api_key ≢ []

-- No two presets have one id.
abbrev pub IsDistinct : List GatewayPreset → Type 0
IsDistinct [] = Unit
IsDistinct (p ∷ presets) = All (λ (q : GatewayPreset). q.id ≢ p.id) presets × IsDistinct presets

require-eq-ok :
    (value : Text) (e : ConfigError) {u : Unit {0}} → require value e ≡ ok u → value ≢ []
require-eq-ok value e h = ground (arith, ==_iff value [])

require_new-eq-ok :
    (id : Text) (seen : List Text) {u : Unit {0}}
    → require_new id seen ≡ ok u
    → one_of id seen ≡ false
require_new-eq-ok id seen h = ground arith

-- What a checked preset is, against the ids before it.
record IsChecked (seen : List Text) (p : GatewayPreset) : Type 0 where
  usable : IsUsable p
  new : one_of p.id seen ≡ false

keep_previous-kept :
    (o : Option GatewayPreset) (p : GatewayPreset)
    → ((keep_previous o p).id ≡ p.id)
      × ((keep_previous o p).name ≡ p.name)
      × ((keep_previous o p).base_url ≡ p.base_url)
      × ((keep_previous o p).model ≡ p.model)
unfolding keep_previous
keep_previous-kept none p = (refl, refl, refl, refl)
keep_previous-kept (some q) p = (refl, refl, refl, refl)

check_preset-IsChecked :
    (now : ℕ) (previous : List GatewayPreset) (seen : List Text) (p : GatewayPreset)
    {q : GatewayPreset}
    → check_preset now previous seen p ≡ ok q
    → IsChecked seen q
unfolding check_preset
check_preset-IsChecked now previous seen p {q} h =
    let (_, a, h1) = >>=-eq-ok (require_new p.id seen) _ h in
    let (_, b, h2) = >>=-eq-ok (require p.name _) _ h1 in
    let (_, c, h3) = >>=-eq-ok (require p.base_url _) _ h2 in
    let (_, d, h4) = >>=-eq-ok (require p.model _) _ h3 in
    let kept = keep_previous (previous_by_id p.id previous) p in
    let (_, e, h5) = >>=-eq-ok (require kept.api_key _) _ h4 in
    let (same_id, same_name, same_url, same_model) =
      keep_previous-kept (previous_by_id p.id previous) p in
    subst (IsChecked seen) (ok-injective h5) (record {
      usable = record {
        named = λ z. require-eq-ok p.name _ b (sym same_name ∙ z);
        has_url = λ z. require-eq-ok p.base_url _ c (sym same_url ∙ z);
        has_model = λ z. require-eq-ok p.model _ d (sym same_model ∙ z);
        has_key = require-eq-ok kept.api_key _ e;
      };
      new = ap (λ x. one_of x seen) same_id ∙ require_new-eq-ok p.id seen a;
    })

new_of_cons :
    (id x : Text) (seen : List Text)
    → one_of id (x ∷ seen) ≡ false
    → (id ≢ x) × (one_of id seen ≡ false)
unfolding one_of
new_of_cons id x seen h = (λ e. ground (arith, ==_iff id x), ground arith)

-- What the loop guarantees of the presets it returns.
abbrev AreChecked : List Text → List GatewayPreset → Type 0
AreChecked seen presets = All (IsChecked seen) presets × IsDistinct presets

AreChecked-cons :
    (seen : List Text) (p : GatewayPreset) (presets : List GatewayPreset)
    → IsChecked seen p
    → AreChecked (p.id ∷ seen) presets
    → AreChecked seen (p ∷ presets)
AreChecked-cons seen p presets c (all, distinct) = (
  (
    c,
    All-imp presets
        (λ q k. record { usable = k.usable; new = (new_of_cons q.id p.id seen k.new).1 }) all,
  ),
  (All-imp presets (λ q k. (new_of_cons q.id p.id seen k.new).0) all, distinct),
)

validate_presets-AreChecked :
    (clock : ℕ → ℕ) (now : ℕ) (previous : List GatewayPreset) (i : ℕ) (seen : List Text)
    (presets : List GatewayPreset) {out : List GatewayPreset}
    → validate_presets clock now previous i seen presets ≡ ok out
    → AreChecked seen out
unfolding validate_presets
validate_presets-AreChecked clock now previous i seen [] h =
    subst (AreChecked seen) (ok-injective h) (tt, tt)
validate_presets-AreChecked clock now previous i seen (p ∷ presets) h =
    let (q, a, h1) =
      >>=-eq-ok
        (check_preset now previous seen (trim_preset (new_id (bytes "gateway") (clock (suc i))) p))
        _ h in
    let (rest, b, h2) =
      >>=-eq-ok (validate_presets clock now previous (suc i) (q.id ∷ seen) presets) _ h1 in
    subst (AreChecked seen) (ok-injective h2) (
      AreChecked-cons seen q rest (check_preset-IsChecked now previous seen _ a)
        (validate_presets-AreChecked clock now previous (suc i) (q.id ∷ seen) presets b))

-- A configuration that the service can work with, and the preset it names.
pub record IsValid (config : GatewayConfig) (active : GatewayPreset) : Type 0 where
  pub usable : All IsUsable config.presets
  pub distinct : IsDistinct config.presets
  pub named : active_gateway_preset config ≡ ok active

-- A configuration that is accepted has presets with a name, a URL, a model and a key each, no two with
-- one id, and its current preset is one of them.
pub validate_gateway_config-IsValid :
    (clock : ℕ → ℕ) (next previous : GatewayConfig) {config : GatewayConfig}
    {active : GatewayPreset}
    → validate_gateway_config clock next previous ≡ ok (config, active)
    → IsValid config active
unfolding validate_gateway_config
validate_gateway_config-IsValid clock next previous {config} {active} h =
    let (_, _, h1) = >>=-eq-ok (require_presets next.presets) _ h in
    let (presets, a, h2) =
      >>=-eq-ok (validate_presets clock (clock 0) previous.presets 0 [] next.presets) _ h1 in
    let (found, b, h3) = >>=-eq-ok _ _ h2 in
    let (all, distinct) =
      validate_presets-AreChecked clock (clock 0) previous.presets 0 [] next.presets a in
    subst (λ (r : GatewayConfig × GatewayPreset). IsValid r.0 r.1) (ok-injective h3)
      (record { usable = All-imp presets (λ p c. c.usable) all; distinct = distinct; named = b })
