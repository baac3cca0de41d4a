-- ===== src/Config/Loaded.antt =====
-- What the configuration is after config.Load.
use lillian_backend.Common.{
  ℤ, pos, ◌≤ℤ◌, ◌≡◌, refl, Text, codes, is_nil, trim_right_of, ◌==◌, Bool, false, [], ◌∷◌,
  if◌then◌else◌, ok, arith,
}
use lillian_backend.Config.{Config, int_env, config_of, load}

-- The last code of a text is a slash.
abbrev pub ends_in_slash : Text → Bool
ends_in_slash [] = false
ends_in_slash (c ∷ s) = if is_nil s then c == b'/' else ends_in_slash s

trim_right_of-end : (s : Text) → ends_in_slash (trim_right_of b'/' s) ≡ false
unfolding trim_right_of
trim_right_of-end [] = refl
trim_right_of-end (c ∷ s) = ground (arith, trim_right_of-end s)

int_env-positive :
    (getenv : Text → Text) (name : Text) (fallback : ℤ)
    → pos 1 ≤ℤ fallback
    → pos 1 ≤ℤ int_env getenv name fallback
unfolding int_env
int_env-positive getenv name fallback h = ground arith

-- The program always loads: whatever the environment holds, Load returns a configuration, the check
-- of the number of workers never refuses, that number is one at least, and none of the four base
-- addresses ends in a slash.
pub load-ok :
    (getenv : Text → Text) (version : Text)
    → (cfg : Config) × (load getenv version ≡ ok cfg)
      × (pos 1 ≤ℤ cfg.task_worker_concurrency)
      × (ends_in_slash cfg.public_api_base_url ≡ false)
      × (ends_in_slash cfg.storage.endpoint ≡ false)
      × (ends_in_slash cfg.storage.public_base_url ≡ false)
      × (ends_in_slash cfg.epusdt.base_url ≡ false)
unfolding load
load-ok getenv version =
    let many = int_env-positive getenv (codes "TASK_WORKER_CONCURRENCY") (pos 2) (omega arith) in
    (
      config_of getenv version,
      grind arith,
      many,
      trim_right_of-end _,
      trim_right_of-end _,
      trim_right_of-end _,
      trim_right_of-end _,
    )
