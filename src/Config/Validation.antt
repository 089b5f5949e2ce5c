-- ===== src/Config/Validation.antt =====
-- What `validate` promises of the command line's values.
use Prim.Native.String.{String}
use text.Mathlib.Text.{◌==◌ as str_eq}
use text.Mathlib.TextEquality.{eq_iff}
use server_naive_rs.Common.{
  ℕ, ◌<◌, ◌≡◌, ◌≢◌, ◌⊎◌, inl, inr, ◌||◌, refl, sym, ap, ◌∙◌, arith, Bool, true, false, not, ◌==◌,
  Option, none, some, if◌then◌else◌,
}
use server_naive_rs.Config.{
  CliArgs, Platform, ConfigError, no_api, no_node, no_cert_file, no_key_file, cert_not_found,
  key_not_found, zero_fetch_users, zero_report_traffics, zero_heartbeat, invalid_log_mode,
  acl_not_found, acl_extension, Checked, passed, rejected, log_mode_valid, is_yaml, check_acl,
  validate,
}

module _ (p : Platform) where
  -- The mode is one of the five, in any case of its letters.
  abbrev pub IsLogMode : String → Type 0
  IsLogMode mode =
      (p.to_lowercase mode ≡ "trace")
      ⊎ (p.to_lowercase mode ≡ "debug")
      ⊎ (p.to_lowercase mode ≡ "info")
      ⊎ (p.to_lowercase mode ≡ "warn")
      ⊎ (p.to_lowercase mode ≡ "error")

  -- The path has an extension, which is yaml or yml in any case of its letters.
  abbrev pub IsYamlExtension : Option String → Type 0
  IsYamlExtension none =
      (p.eq_ignore_ascii_case "" "yaml" ≡ true) ⊎ (p.eq_ignore_ascii_case "" "yml" ≡ true)
  IsYamlExtension (some ext) =
      (p.eq_ignore_ascii_case ext "yaml" ≡ true) ⊎ (p.eq_ignore_ascii_case ext "yml" ≡ true)

  -- An ACL file, if there is one, exists and is a YAML file by its name.
  abbrev pub AclValid : Option String → Type 0
  AclValid none = Unit {0}
  AclValid (some path) = (p.exists path ≡ true) × IsYamlExtension (p.extension path)

  pub record IsValid (cli : CliArgs) : Type 0 where
    pub api : cli.api ≢ ""
    pub node : 0 < cli.node
    pub cert : (cli.cert_file ≢ "") × (p.exists cli.cert_file ≡ true)
    pub key : (cli.key_file ≢ "") × (p.exists cli.key_file ≡ true)
    pub intervals :
        (0 < cli.fetch_users_interval)
        × (0 < cli.report_traffics_interval)
        × (0 < cli.heartbeat_interval)
    pub log_mode : IsLogMode cli.log_mode
    pub acl : AclValid cli.acl_conf_file

  -- What an error says.
  abbrev pub Blames : CliArgs → ConfigError → Type 0
  Blames cli no_api = cli.api ≡ ""
  Blames cli no_node = cli.node ≡ 0
  Blames cli no_cert_file = cli.cert_file ≡ ""
  Blames cli no_key_file = cli.key_file ≡ ""
  Blames cli cert_not_found = p.exists cli.cert_file ≡ false
  Blames cli key_not_found = p.exists cli.key_file ≡ false
  Blames cli zero_fetch_users = cli.fetch_users_interval ≡ 0
  Blames cli zero_report_traffics = cli.report_traffics_interval ≡ 0
  Blames cli zero_heartbeat = cli.heartbeat_interval ≡ 0
  Blames cli invalid_log_mode = ¬ (IsLogMode cli.log_mode)
  Blames cli acl_not_found =
      (path : String) × (cli.acl_conf_file ≡ some path) × (p.exists path ≡ false)
  Blames cli acl_extension =
      (path : String) × (cli.acl_conf_file ≡ some path) × (¬ (IsYamlExtension (p.extension path)))

  abbrev pub Judged : CliArgs → Checked → Type 0
  Judged cli passed = IsValid cli
  Judged cli (rejected e) = Blames cli e

  -- A check that fails is to blame; behind it the others follow.
  guarded :
      (cli : CliArgs) (e : ConfigError) (b : Bool) (rest : Checked)
      → (b ≡ true → Blames cli e)
      → (b ≡ false → Judged cli rest)
      → Judged cli (if b then rejected e else rest)
  guarded cli e true rest h k = h refl
  guarded cli e false rest h k = k refl

  one_of_five :
      (s a b c d e : String)
      → (str_eq s a || (str_eq s b || (str_eq s c || (str_eq s d || (str_eq s e || false))))) ≡ true
      → (s ≡ a) ⊎ (s ≡ b) ⊎ (s ≡ c) ⊎ (s ≡ d) ⊎ (s ≡ e)
  one_of_five s a b c d e q =
      go (str_eq s a) (str_eq s b) (str_eq s c) (str_eq s d) (str_eq s e) refl refl refl refl refl q
    where
      go :
          (u v x y z : Bool)
          → str_eq s a ≡ u
          → str_eq s b ≡ v
          → str_eq s c ≡ x
          → str_eq s d ≡ y
          → str_eq s e ≡ z
          → (u || (v || (x || (y || (z || false))))) ≡ true
          → (s ≡ a) ⊎ (s ≡ b) ⊎ (s ≡ c) ⊎ (s ≡ d) ⊎ (s ≡ e)
      go true v x y z eu ev ex ey ez h = inl ((eq_iff s a).0 eu)
      go false true x y z eu ev ex ey ez h = inr (inl ((eq_iff s b).0 ev))
      go false false true y z eu ev ex ey ez h = inr (inr (inl ((eq_iff s c).0 ex)))
      go false false false true z eu ev ex ey ez h = inr (inr (inr (inl ((eq_iff s d).0 ey))))
      go false false false false true eu ev ex ey ez h = inr (inr (inr (inr ((eq_iff s e).0 ez))))
      go false false false false false eu ev ex ey ez h = cc

  IsLogMode-known : (mode : String) → log_mode_valid p mode ≡ true → IsLogMode mode
  unfolding log_mode_valid
  IsLogMode-known mode q = one_of_five (p.to_lowercase mode) "trace" "debug" "info" "warn" "error" q

  same_text : (s t : String) → s ≡ t → str_eq s t ≡ true
  same_text s t e = (eq_iff s t).1 e

  IsLogMode-unknown : (mode : String) → log_mode_valid p mode ≡ false → ¬ (IsLogMode mode)
  unfolding log_mode_valid
  IsLogMode-unknown mode q (inl e) = ground (arith, q, same_text _ _ e)
  IsLogMode-unknown mode q (inr (inl e)) = ground (arith, q, same_text _ _ e)
  IsLogMode-unknown mode q (inr (inr (inl e))) = ground (arith, q, same_text _ _ e)
  IsLogMode-unknown mode q (inr (inr (inr (inl e)))) = ground (arith, q, same_text _ _ e)
  IsLogMode-unknown mode q (inr (inr (inr (inr e)))) = ground (arith, q, same_text _ _ e)

  either : (a b : Bool) → (a || b) ≡ true → (a ≡ true) ⊎ (b ≡ true)
  either true b e = inl refl
  either false b e = inr e

  neither : (a b : Bool) → (a || b) ≡ false → ¬ ((a ≡ true) ⊎ (b ≡ true))
  neither a b e (inl q) = ground (arith, e, q)
  neither a b e (inr q) = ground (arith, e, q)

  IsYamlExtension-known :
      (path : String) → is_yaml p path ≡ true → IsYamlExtension (p.extension path)
  unfolding is_yaml
  IsYamlExtension-known path = go (p.extension path) refl
    where
      go : (o : Option String) → p.extension path ≡ o → is_yaml p path ≡ true → IsYamlExtension o
      go none e q = either _ _ (rw e at q)
      go (some ext) e q = either _ _ (rw e at q)

  IsYamlExtension-unknown :
      (path : String) → is_yaml p path ≡ false → ¬ (IsYamlExtension (p.extension path))
  unfolding is_yaml
  IsYamlExtension-unknown path = go (p.extension path) refl
    where
      go :
          (o : Option String)
          → p.extension path ≡ o
          → is_yaml p path ≡ false
          → ¬ (IsYamlExtension o)
      go none e q = neither _ _ (rw e at q)
      go (some ext) e q = neither _ _ (rw e at q)

  empty : (s : String) → str_eq s "" ≡ true → s ≡ ""
  empty s e = (eq_iff s "").0 e

  nonempty : (s : String) → str_eq s "" ≡ false → s ≢ ""
  nonempty s e q = cc (sym (ap (λ t. str_eq t "") q) ∙ e)

  negated : (b : Bool) → not b ≡ true → b ≡ false
  negated false e = refl
  negated true e = cc

  affirmed : (b : Bool) → not b ≡ false → b ≡ true
  affirmed true e = refl
  affirmed false e = cc

  acl-Judged :
      (cli : CliArgs)
      → (AclValid cli.acl_conf_file → IsValid cli)
      → Judged cli (check_acl p cli.acl_conf_file)
  unfolding check_acl
  acl-Judged cli valid = go cli.acl_conf_file refl valid
    where
      go :
          (o : Option String)
          → cli.acl_conf_file ≡ o
          → (AclValid o → IsValid cli)
          → Judged cli (check_acl p o)
      go none e h = h tt
      go (some path) e h =
          guarded cli acl_not_found (not (p.exists path))
            (if is_yaml p path then passed else rejected acl_extension)
            (λ q. (path, e, negated (p.exists path) q))
            (λ q. named (is_yaml p path) refl (affirmed (p.exists path) q))
        where
          named :
              (b : Bool)
              → is_yaml p path ≡ b
              → p.exists path ≡ true
              → Judged cli (if b then passed else rejected acl_extension)
          named true y x = h (x, IsYamlExtension-known path y)
          named false y x = (path, e, IsYamlExtension-unknown path y)

  is_zero : (n : ℕ) → (n == 0) ≡ true → n ≡ 0
  is_zero n e = ground arith

  above_zero : (n : ℕ) → (n == 0) ≡ false → 0 < n
  above_zero n e = ground arith

  -- Where the check passes, no required text is empty, the node and the intervals are not zero, the
  -- certificate and the key exist, the log mode in lower case is one of the five, and an ACL file exists
  -- and has the extension yaml or yml, in any case of its letters. Where it does not, the error tells
  -- which of these does not hold. Nothing is said of the other values, such as the size of the buffers
  -- and the idle timeout.
  pub validate-Judged : (cli : CliArgs) → Judged cli (validate p cli)
  unfolding validate
  validate-Judged cli = guarded cli no_api _ _ (empty cli.api) (λ a.
      guarded cli no_node _ _ (is_zero cli.node) (λ n.
        guarded cli no_cert_file _ _ (empty cli.cert_file) (λ c.
          guarded cli no_key_file _ _ (empty cli.key_file) (λ k.
            guarded cli cert_not_found _ _ (negated (p.exists cli.cert_file)) (λ ce.
              guarded cli key_not_found _ _ (negated (p.exists cli.key_file)) (λ ke.
                guarded cli zero_fetch_users _ _ (is_zero cli.fetch_users_interval) (λ f.
                  guarded cli zero_report_traffics _ _ (is_zero cli.report_traffics_interval) (λ r.
                    guarded cli zero_heartbeat _ _ (is_zero cli.heartbeat_interval) (λ h.
                      guarded cli invalid_log_mode _ _
                        (λ l.
                          IsLogMode-unknown cli.log_mode
                            (negated (log_mode_valid p cli.log_mode) l))
                        (λ l. acl-Judged cli (λ acl. record {
                          api = nonempty cli.api a;
                          node = above_zero cli.node n;
                          cert = (nonempty cli.cert_file c, affirmed (p.exists cli.cert_file) ce);
                          key = (nonempty cli.key_file k, affirmed (p.exists cli.key_file) ke);
                          intervals = (
                            above_zero cli.fetch_users_interval f,
                            above_zero cli.report_traffics_interval r,
                            above_zero cli.heartbeat_interval h,
                          );
                          log_mode =
                              IsLogMode-known cli.log_mode
                                (affirmed (log_mode_valid p cli.log_mode) l);
                          acl = acl;
                        })))))))))))
