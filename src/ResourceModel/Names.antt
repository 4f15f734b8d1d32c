-- ===== src/ResourceModel/Names.antt =====
-- platform_resource_model.py: the checks of names, by their regular expressions over code points,
-- and of addresses, which Python's `ipaddress` reads.
use klokast_box.Prelude.{
  ℕ, zero, suc, String, Bool, true, false, not, ◌&&◌, ◌||◌, Option, none, some, List, [], ◌∷◌, ◌==◌,
  ◌=ₛ◌, if◌then◌else◌, all, elem,
}
use klokast_box.Prelude.Text.{
  codes, is_lower, is_upper, is_hex, is_alnum, is_label, headed, between,
}
use klokast_box.Checks.{Outcome, raised, ◌>>◌, check}
use klokast_box.ResourceModel.{Value, Refusal, died, crashed}

-- A text that satisfies a test of its code points.
abbrev pub text_fits : (List ℕ → Bool) → Value → Bool
text_fits p (Value.text s) = p (codes s)
text_fits p _ = false

-- `ID_RE`
abbrev pub is_id : List ℕ → Bool
is_id = headed is_lower is_label 63

-- `USER_FIELD_RE`
abbrev pub is_user_field : List ℕ → Bool
is_user_field = headed is_lower (λ c. is_alnum c || c == b'_') 63

-- `SLUG_RE`
abbrev pub is_slug : List ℕ → Bool
is_slug = headed is_lower is_label 23

-- `SYSTEM_USER_RE`
abbrev pub is_system_user : List ℕ → Bool
is_system_user = headed (λ c. is_lower c || c == b'_') (λ c. is_label c || c == b'_') 31

abbrev pub last_is : (ℕ → Bool) → List ℕ → Bool
last_is p [] = false
last_is p (c ∷ []) = p c
last_is p (c ∷ d ∷ s) = last_is p (d ∷ s)

-- `BOX_RE`
abbrev pub is_box : List ℕ → Bool
is_box s = headed is_alnum is_label 62 s && last_is is_alnum s

-- `IFACE_RE`
abbrev pub is_iface : List ℕ → Bool
is_iface = headed is_iface_code is_iface_code 31
  where
    is_iface_code : ℕ → Bool
    is_iface_code c = is_alnum c || is_upper c || c == b'_' || c == b'.' || c == b':' || c == b'-'

abbrev pub is_tag_code : ℕ → Bool
is_tag_code c = is_alnum c || is_upper c

abbrev pub is_tag_name : List ℕ → Bool
is_tag_name [] = false
is_tag_name (c ∷ s) = is_tag_code c && all (λ d. is_tag_code d || d == b'_' || d == b'-') s

-- What is left of a text after a prefix.
abbrev pub after_prefix : List ℕ → List ℕ → Option (List ℕ)
after_prefix [] s = some s
after_prefix (p ∷ ps) [] = none
after_prefix (p ∷ ps) (c ∷ s) = if p == c then after_prefix ps s else none

abbrev pub some_fits : (List ℕ → Bool) → Option (List ℕ) → Bool
some_fits p none = false
some_fits p (some s) = p s

-- `TAG_RE`
abbrev pub is_tag : List ℕ → Bool
is_tag s = some_fits is_tag_name (after_prefix (codes "tag:") s)

-- `\s` of a regular expression over texts.
abbrev pub is_space : ℕ → Bool
is_space c =
    between 9 13 c
    || between 28 32 c
    || c == 133
    || c == 160
    || c == 5760
    || between 8192 8202 c
    || c == 8232
    || c == 8233
    || c == 8239
    || c == 8287
    || c == 12288

abbrev pub is_login_code : ℕ → Bool
is_login_code c = not (c == b'@') && not (is_space c)

-- `[^@\s]+`, from the first code on.
abbrev pub is_login_part : List ℕ → Bool
is_login_part [] = false
is_login_part (c ∷ s) = all is_login_code (c ∷ s)

-- The rest of a login after its first part has begun.
abbrev pub is_login_rest : List ℕ → Bool
is_login_rest [] = false
is_login_rest (c ∷ s) = if c == b'@' then is_login_part s else is_login_code c && is_login_rest s

-- `LOGIN_RE`
abbrev pub is_login : List ℕ → Bool
is_login [] = false
is_login (c ∷ s) = is_login_code c && is_login_rest s

-- `MAC_RE`
abbrev pub is_hex_any : ℕ → Bool
is_hex_any c = is_hex c || between b'A' b'F' c

abbrev pub is_mac_from : ℕ → List ℕ → Bool
is_mac_from zero (a ∷ b ∷ []) = is_hex_any a && is_hex_any b
is_mac_from (suc n) (a ∷ b ∷ c ∷ s) = is_hex_any a && is_hex_any b && c == b':' && is_mac_from n s
is_mac_from _ _ = false

abbrev pub is_mac : List ℕ → Bool
is_mac = is_mac_from 5

-- A check of a value that is a text of one form.
abbrev pub check_form : (List ℕ → Bool) → String → Value → Outcome Refusal (Unit {0})
check_form p message value = check (text_fits p value) (died message)

unfoldable pub validate_id : Value → Outcome Refusal (Unit {0})
validate_id = check_form is_id "must be kebab-case and start with a letter"

unfoldable pub validate_user_field : Value → Outcome Refusal (Unit {0})
validate_user_field = check_form is_user_field "must be snake_case and start with a letter"

unfoldable pub validate_hostname : Value → Outcome Refusal (Unit {0})
validate_hostname = check_form is_box "must be a DNS-safe hostname"

unfoldable pub validate_mac : Value → Outcome Refusal (Unit {0})
validate_mac = check_form is_mac "must be a MAC address like aa:bb:cc:dd:ee:ff"

unfoldable pub validate_iface : Value → Outcome Refusal (Unit {0})
validate_iface = check_form is_iface "must be a network interface name"

unfoldable pub validate_tag : Value → Outcome Refusal (Unit {0})
validate_tag = check_form is_tag "must be a Tailscale tag like tag:nextcloud"

unfoldable pub validate_slug : Value → Outcome Refusal (Unit {0})
validate_slug = check_form is_slug "must be a lowercase slug like alice"

unfoldable pub validate_login : Value → Outcome Refusal (Unit {0})
validate_login = check_form is_login "must be an exact Tailscale login email"

-- `value in (…)`
abbrev pub is_one_of : List String → Value → Bool
is_one_of names (Value.text s) = elem ◌=ₛ◌ s names
is_one_of names _ = false

abbrev pub reserved_app_names : List String
reserved_app_names = "platform" ∷ "doctor" ∷ "air" ∷ "update" ∷ "setup" ∷ []

unfoldable pub validate_app_id : Value → Outcome Refusal (Unit {0})
unfolding validate_id
validate_app_id value = do
  validate_id value
  check (not (is_one_of reserved_app_names value)) (died "application name is reserved")

abbrev pub role_suffixes : List String
role_suffixes =
    "bootstrap" ∷ "dom0" ∷ "router" ∷ "bak" ∷ "dmz" ∷ "iot" ∷ "usr" ∷ "ops" ∷ "agent" ∷ "agt" ∷ []

-- `s == t`, over code points.
abbrev pub same_codes : List ℕ → List ℕ → Bool
same_codes [] [] = true
same_codes (c ∷ s) (d ∷ t) = c == d && same_codes s t
same_codes _ _ = false

-- `s.endswith(t)`
abbrev pub ends_with : List ℕ → List ℕ → Bool
ends_with t [] = same_codes [] t
ends_with t (c ∷ s) = same_codes (c ∷ s) t || ends_with t s

abbrev pub is_role_name : List String → List ℕ → Bool
is_role_name [] s = false
is_role_name (suffix ∷ rest) s =
    same_codes s (codes suffix) || ends_with (b'-' ∷ codes suffix) s || is_role_name rest s

unfoldable pub validate_box : Value → Outcome Refusal (Unit {0})
validate_box value = do
  check_form is_box "must be a box name like boxa" value
  check (text_fits (λ s. not (is_role_name role_suffixes s)) value)
      (died "must be a box name, not a role hostname")

abbrev pub reserved_app_tailnet_tags : List String
reserved_app_tailnet_tags =
    "tag:bootstrap" ∷ "tag:dom0" ∷ "tag:infra" ∷ "tag:infra-agent" ∷ "tag:oob" ∷ "tag:ops"
    ∷ "tag:router" ∷ "tag:vm" ∷ []

unfoldable pub validate_app_tailnet_tag : Value → Outcome Refusal (Unit {0})
unfolding validate_tag
validate_app_tailnet_tag value = do
  validate_tag value
  check (not (is_one_of reserved_app_tailnet_tags value))
      (died "must not use reserved Platform control tag")

abbrev pub system_accounts : List String
system_accounts =
    "root" ∷ "daemon" ∷ "bin" ∷ "sys" ∷ "sync" ∷ "games" ∷ "man" ∷ "lp" ∷ "mail" ∷ "news" ∷ "uucp"
    ∷ "proxy" ∷ "www-data" ∷ "backup" ∷ "list" ∷ "irc" ∷ "gnats" ∷ "nobody" ∷ []

unfoldable pub validate_system_user : Value → Outcome Refusal (Unit {0})
validate_system_user value = do
  check_form is_system_user "must be a POSIX user name like alice" value
  check (not (is_one_of system_accounts value)) (died "must not be a reserved system account")

-- `ipaddress`, as the checks use it: which texts are addresses or networks, the canonical text of
-- an address, and which addresses a network has.
pub record Addresses : Type 0 where
  pub is_address : String → Bool
  pub is_network : String → Bool
  pub canonical : String → String
  pub within : String → String → Bool
  -- `IPv4Address(v).is_global`, none where `v` is no such address.
  pub is_global : String → Option Bool

module _ (addresses : Addresses) where
  abbrev pub is_ip : String → Bool
  is_ip s = if elem ◌==◌ b'/' (codes s) then addresses.is_network s else addresses.is_address s

  unfoldable pub validate_ip : Value → Outcome Refusal (Unit {0})
  validate_ip (Value.text s) = do
    check (not (s =ₛ "")) (died "must be an IPv4 address or CIDR")
    check (is_ip s) (died "must be an IPv4 address or CIDR")
  validate_ip _ = raised (died "must be an IPv4 address or CIDR")

  -- A text that `validate_ip` accepted; `ip_address` raises for a network.
  unfoldable pub check_within : Value → Value → Outcome Refusal (Unit {0})
  check_within (Value.text s) (Value.text cidr) = do
    check (addresses.is_address s) (crashed "ValueError")
    check (addresses.is_network cidr) (crashed "ValueError")
    check (addresses.within s cidr) (died "must be inside the network")
  check_within _ _ = raised (crashed "ValueError")

  unfoldable pub validate_ip_in_cidr : Value → Value → Outcome Refusal (Unit {0})
  unfolding validate_ip check_within
  validate_ip_in_cidr value cidr = do validate_ip value; check_within value cidr
