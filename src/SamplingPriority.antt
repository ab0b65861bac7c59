-- ===== src/SamplingPriority.antt =====
-- src/sampling_priority.h and .cpp, src/sampling_mechanism.h: sampling decisions and their reasons.
-- A C++ `int` is an integer: the source does no arithmetic on it.
use dd_opentracing_cpp.Prelude.{
  ℕ, zero, suc, ◌≡◌, ◌↔◌, ◌||◌, Option, none, some, if◌then◌else◌, arith, ℤ, pos, negsuc, ltb_ℤ,
}

pub data SamplingPriority : Type 0 where
  user_drop sampler_drop sampler_keep user_keep : SamplingPriority

-- `static_cast<int>` of the enumeration.
abbrev pub as_int : SamplingPriority → ℤ
as_int user_drop = negsuc 0
as_int sampler_drop = pos 0
as_int sampler_keep = pos 1
as_int user_keep = pos 2

abbrev pub minimum_value : SamplingPriority
minimum_value = user_drop

abbrev pub maximum_value : SamplingPriority
maximum_value = user_keep

-- `static_cast<SamplingPriority>` of an integer in range.
abbrev pub from_int : ℤ → SamplingPriority
from_int (negsuc n) = user_drop
from_int (pos zero) = sampler_drop
from_int (pos (suc zero)) = sampler_keep
from_int (pos (suc (suc n))) = user_keep

-- `asSamplingPriority(int)`, with `none` for `nullptr`.
unfoldable pub as_sampling_priority : ℤ → Option SamplingPriority
as_sampling_priority i =
    if ltb_ℤ i (as_int minimum_value) || ltb_ℤ (as_int maximum_value) i
    then none
    else some (from_int i)

pub data UserSamplingPriority : Type 0 where
  drop keep : UserSamplingPriority

abbrev pub user_as_int : UserSamplingPriority → ℤ
user_as_int drop = as_int user_drop
user_as_int keep = as_int user_keep

-- `asSamplingPriority(const std::unique_ptr<UserSamplingPriority>&)`.
unfoldable pub as_sampling_priority_of_user : Option UserSamplingPriority → Option SamplingPriority
unfolding as_sampling_priority
as_sampling_priority_of_user none = none
as_sampling_priority_of_user (some p) = as_sampling_priority (user_as_int p)

pub data SamplingMechanism : Type 0 where
  default agent_rate remote_rate_auto rule manual app_sec remote_rate_user_defined :
      SamplingMechanism
  remote_rate_emergency span_rule : SamplingMechanism

-- `int` of the enumeration.
abbrev pub mechanism_as_int : SamplingMechanism → ℕ
mechanism_as_int default = 0
mechanism_as_int agent_rate = 1
mechanism_as_int remote_rate_auto = 2
mechanism_as_int rule = 3
mechanism_as_int manual = 4
mechanism_as_int app_sec = 5
mechanism_as_int remote_rate_user_defined = 6
mechanism_as_int remote_rate_emergency = 7
mechanism_as_int span_rule = 8

-- An integer is accepted as a sampling priority exactly if it is the value of one, and then it is
-- read as that one.
as_sampling_priority_iff :
    (i : ℤ) (p : SamplingPriority) → (as_sampling_priority i ≡ some p) ↔ (i ≡ as_int p)
unfolding as_sampling_priority
as_sampling_priority_iff i p = ground arith
