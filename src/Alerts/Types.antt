-- ===== src/Alerts/Types.antt =====
-- Alert types, statuses and keys: server/contracts/src/types.ts, and `alertKey` of
-- server/core/src/db/alerts.ts.
use Prim.Native.String
use text.Mathlib.TextLemmas.{append_cancel_left}
use pmeow.Prelude.{
  String, Bool, true, false, Option, none, some, ◌≡◌, refl, ◌↔◌, Eq, ◌==◌, eq_iff, nat_eq,
  string_eq, ap, ◌∙◌, sym, arith, if◌then◌else◌, NoColon, before_colon, before_colon-append,
}

pub data AlertType : Type 0 where
  cpu memory disk gpu_temp offline gpu_idle_memory : AlertType

pub data AlertStatus : Type 0 where
  active resolved silenced : AlertStatus

pub data Source : Type 0 where
  detection user_action : Source

abbrev pub type_name : AlertType → String
type_name cpu = "cpu"
type_name memory = "memory"
type_name disk = "disk"
type_name gpu_temp = "gpu_temp"
type_name offline = "offline"
type_name gpu_idle_memory = "gpu_idle_memory"

abbrev pub is_active : AlertStatus → Bool
is_active active = true
is_active _ = false

abbrev pub is_resolved : AlertStatus → Bool
is_resolved resolved = true
is_resolved _ = false

abbrev pub is_silenced : AlertStatus → Bool
is_silenced silenced = true
is_silenced _ = false

abbrev parse_type : String → Option AlertType
parse_type s =
    if s == "cpu"
    then some cpu
    else if s == "memory"
    then some memory
    else if s == "disk"
    then some disk
    else if s == "gpu_temp"
    then some gpu_temp
    else if s == "offline"
    then some offline
    else if s == "gpu_idle_memory"
    then some gpu_idle_memory
    else none

parse_type-type_name : (t : AlertType) → parse_type (type_name t) ≡ some t
parse_type-type_name cpu = refl
parse_type-type_name memory = refl
parse_type-type_name disk = refl
parse_type-type_name gpu_temp = refl
parse_type-type_name offline = refl
parse_type-type_name gpu_idle_memory = refl

pub type_name_injective : (t u : AlertType) → type_name t ≡ type_name u → t ≡ u
type_name_injective t u e = cc (parse_type-type_name t, parse_type-type_name u, ap parse_type e)

pub type_name_iff : (t u : AlertType) → ((type_name t == type_name u) ≡ true) ↔ (t ≡ u)
type_name_iff t u =
    ((λ h. type_name_injective t u ((eq_iff _ _).0 h)), (λ h. (eq_iff _ _).1 (ap type_name h)))

-- `alert_type = ?` compares the texts.
instance abbrev pub type_eq : Eq AlertType
type_eq = record { same = λ t u. type_name t == type_name u; same_means_equal = type_name_iff }

abbrev pub same_status : AlertStatus → AlertStatus → Bool
same_status active s = is_active s
same_status resolved s = is_resolved s
same_status silenced s = is_silenced s

abbrev pub alert_key : AlertType → String → String
alert_key t fp = String.◌++◌ (type_name t) (String.◌++◌ ":" fp)

type_name-NoColon : (t : AlertType) → NoColon (type_name t)
type_name-NoColon cpu = omega arith
type_name-NoColon memory = omega arith
type_name-NoColon disk = omega arith
type_name-NoColon gpu_temp = omega arith
type_name-NoColon offline = omega arith
type_name-NoColon gpu_idle_memory = omega arith

-- The key of the map of candidates tells the pairs of a type and a fingerprint apart.
pub alert_key_injective :
    (t u : AlertType) (a b : String) → alert_key t a ≡ alert_key u b → (t ≡ u) × (a ≡ b)
alert_key_injective t u a b e = (
  same,
  append_cancel_left ":" a b (append_cancel_left (type_name t) _ _ (rw same (rw same at e))),
)
  where
    same : t ≡ u
    same = type_name_injective t u (
        sym (before_colon-append _ a (type_name-NoColon t))
        ∙ ap before_colon e
        ∙ before_colon-append _ b (type_name-NoColon u))
