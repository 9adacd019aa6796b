-- ===== src/Jobs/Key.antt =====
-- A job and its batch-compatibility key: `_compat_key` of src/nunspark/webapp/jobs.py and the fields
-- of `Job` (src/nunspark/webapp/schemas.py) that it reads. A string is the list of its code points; a
-- float is given by a number, equal floats by equal numbers.
use nunspark.Base.{
  ℕ, if◌then◌else◌, Bool, true, false, ◌&&◌, List, [], ◌∷◌, Option, none, some, list_eq, ◌==◌,
}

-- The entries of `advanced` that the key reads; `none` is a missing entry.
pub record Advanced : Type 0 where
  pub batch : Option Bool
  pub budget : Option (List ℕ)
  pub kv_bits : Option ℕ
  pub kv_group_size : Option ℕ

pub record Job : Type 0 where
  pub id : ℕ
  pub model : List ℕ
  pub draft : Option (List ℕ)
  pub use_chat_template : Bool
  pub max_tokens : ℕ
  pub temperature : ℕ
  pub advanced : Advanced

pub record Key : Type 0 where
  pub model : List ℕ
  pub budget : List ℕ
  pub kv_bits : Option ℕ
  pub kv_group_size : ℕ
  pub use_chat_template : Bool
  pub temperature : ℕ
  pub max_tokens : ℕ

-- `d.get(name, default)`.
unfoldable pub get_or {ℓ} : {A : Type ℓ} → Option A → A → A
get_or none default = default
get_or (some a) default = a

-- "auto".
abbrev pub auto_budget : List ℕ
auto_budget = 97 ∷ 117 ∷ 116 ∷ 111 ∷ []

unfoldable pub compat_key : Job → Option Key
compat_key job = elim job.draft [
  | some d ↦ none
  | none ↦
      if get_or job.advanced.batch true
      then some (record {
        model = job.model;
        budget = get_or job.advanced.budget auto_budget;
        kv_bits = job.advanced.kv_bits;
        kv_group_size = get_or job.advanced.kv_group_size 64;
        use_chat_template = job.use_chat_template;
        temperature = job.temperature;
        max_tokens = job.max_tokens;
      })
      else none
]

unfoldable pub same_bits : Option ℕ → Option ℕ → Bool
same_bits none none = true
same_bits none (some b) = false
same_bits (some a) none = false
same_bits (some a) (some b) = a == b

unfoldable pub same_bool : Bool → Bool → Bool
same_bool true b = b
same_bool false true = false
same_bool false false = true

-- The comparison of two tuples.
unfoldable pub key_eq : Key → Key → Bool
key_eq a b =
    list_eq a.model b.model
    && list_eq a.budget b.budget
    && same_bits a.kv_bits b.kv_bits
    && a.kv_group_size == b.kv_group_size
    && same_bool a.use_chat_template b.use_chat_template
    && a.temperature == b.temperature
    && a.max_tokens == b.max_tokens

-- `_compat_key(job) == key`.
unfoldable pub is_compatible : Job → Key → Bool
is_compatible job key = elim (compat_key job) [ none ↦ false | some k ↦ key_eq k key ]
