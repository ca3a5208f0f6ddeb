-- ===== src/Config.antt =====
-- internal/config/config.go: the reading of the environment. strconv.Atoi and strconv.ParseFloat are
-- parameters; a missing variable reads as the empty text.
use doevoe.Base.{
  ℕ, ◌==◌, Text, ◌&&◌, Option, none, some, List, [], ◌∷◌, ◌++◌, codes, is_empty, if◌then◌else◌,
  Fallible, value, failure, ◌>>=◌,
}

-- `Float` is float64.
pub record Numbers : Type 1 where
  pub Float : Type 0
  pub atoi : Text → Fallible ℕ
  pub parse_float : Text → Fallible Float
  pub fifth : Float  -- 0.2

module _ (numbers : Numbers) where
  open numbers use {Float}

  -- Config
  pub record Config : Type 0 where
    pub hostname : Text
    pub listen : Text
    pub data_dir : Text
    pub admin_password : Text
    pub admin_email : Text
    pub system_from : Text
    pub egress_ip : Text
    pub public_url : Text
    pub smtp_port : ℕ
    pub failure_rate_min_volume : ℕ
    pub failure_rate_threshold : Float

  -- getdef
  abbrev pub getdef : Text → Text → Text
  getdef v d = if is_empty v then d else v

  named : Text → Fallible ℕ → Fallible ℕ
  named key (value n) = value n
  named key (failure e) = failure (key ++ codes ": " ++ e)

  -- intdef
  unfoldable pub intdef : (Text → Text) → Text → ℕ → Fallible ℕ
  unfolding named
  intdef getenv key d =
      let v = getenv key in if is_empty v then value d else named key (numbers.atoi v)

  -- strings.TrimRight(s, "/")
  unfoldable pub trim_slashes : Text → Text
  trim_slashes [] = []
  trim_slashes (c ∷ cs) =
      let rest = trim_slashes cs in if c == 47 && is_empty rest then [] else c ∷ rest

  -- The map of what is required, whose order is not fixed: `names` has its keys, in some order.
  unfoldable pub missing : (Text → Text) → List Text → Option Text
  missing getenv [] = none
  missing getenv (name ∷ names) = if is_empty (getenv name) then some name else missing getenv names

  threshold : Text → Fallible Float
  threshold v = if is_empty v then value numbers.fifth else elim (numbers.parse_float v) [
    | value x ↦ value x
    | failure e ↦ failure (codes "DOEVOE_FAILURE_RATE_THRESHOLD: " ++ e)
  ]

  filled : (Text → Text) → ℕ → ℕ → Float → Config
  unfolding trim_slashes
  filled getenv port volume rate = record {
    hostname = getenv (codes "DOEVOE_HOSTNAME");
    listen = getdef (getenv (codes "DOEVOE_LISTEN")) (codes ":8080");
    data_dir = getdef (getenv (codes "DOEVOE_DATA_DIR")) (codes "/data");
    admin_password = getenv (codes "DOEVOE_ADMIN_PASSWORD");
    admin_email = getenv (codes "DOEVOE_ADMIN_EMAIL");
    system_from = getenv (codes "DOEVOE_SYSTEM_FROM");
    egress_ip = getenv (codes "DOEVOE_EGRESS_IP");
    public_url = trim_slashes (getenv (codes "DOEVOE_PUBLIC_URL"));
    smtp_port = port;
    failure_rate_min_volume = volume;
    failure_rate_threshold = rate;
  }

  with_required : (Text → Text) → Option Text → Fallible Config
  unfolding threshold filled intdef
  with_required getenv (some name) = failure (name ++ codes " is required")
  with_required getenv none = intdef getenv (codes "DOEVOE_SMTP_PORT") 25 >>= λ (port : ℕ).
      intdef getenv (codes "DOEVOE_FAILURE_RATE_MIN_VOLUME") 10 >>= λ (volume : ℕ).
      threshold (getenv (codes "DOEVOE_FAILURE_RATE_THRESHOLD")) >>= λ (rate : Float).
      value (filled getenv port volume rate)

  -- Load
  unfoldable pub load : (Text → Text) → List Text → Fallible Config
  unfolding with_required missing
  load getenv names = with_required getenv (missing getenv names)
