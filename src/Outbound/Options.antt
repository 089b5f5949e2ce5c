-- ===== src/Outbound/Options.antt =====
-- The options that a direct outbound is dialed with.
use Prim.Native.String.{String}
use text.Mathlib.Text.{◌==◌ as str_eq}
use server_naive_rs.Common.{
  ℕ, ◌≡◌, refl, ap, arith, Bool, true, false, not, ◌==◌, Option, none, some, if◌then◌else◌, ◌↔◌,
}
use server_naive_rs.IpFilter.{Ipv4Addr, Ipv6Addr}
use server_naive_rs.Router.{OutboundHandler, direct, socks5, http, reject, custom_dialer}
use server_naive_rs.Outbound.{
  Socks5Config, HttpConfig, DirectConfig, OutboundEntry, DirectMode, auto, only4, only6, prefer46,
  prefer64, DirectOptions, Outside, EntryResult, made, failed, EntryError, bind, required, is_some,
  is_auto, positive, custom_dial, direct_options, direct_handler, from_entry, credentials,
  socks5_handler, http_handler, or_default_direct,
}

-- The options that a direct outbound has by default.
abbrev pub default_options : DirectOptions
default_options = record {
  mode = auto;
  bind_ip4 = none;
  bind_ip6 = none;
  bind_device = none;
  fast_open = false;
  timeout = none;
  tcp_nodelay = true;
  tcp_keepalive = some 60;
}

is_some-none : {A : Type 0} (o : Option A) → is_some o ≡ false → o ≡ none
unfolding is_some
is_some-none none e = refl
is_some-none (some a) e = cc

is_auto-auto : (m : DirectMode) → is_auto m ≡ true → m ≡ auto
unfolding is_auto
is_auto-auto auto e = refl
is_auto-auto only4 e = cc
is_auto-auto only6 e = cc
is_auto-auto prefer46 e = cc
is_auto-auto prefer64 e = cc

not-false : (a : Bool) → not a ≡ false → a ≡ true
not-false true e = refl
not-false false e = cc

sixty : (n : ℕ) → ((n == 60) ≡ true) ↔ (positive n ≡ some 60)
unfolding positive
sixty n = (λ q. ground arith, λ q. ground arith)

custom_dial-default :
    (config : DirectConfig) (mode : DirectMode) (ip4 : Option Ipv4Addr) (ip6 : Option Ipv6Addr)
    → custom_dial config mode ip4 ip6 ≡ false
    → direct_options config mode ip4 ip6 ≡ default_options
unfolding custom_dial direct_options
custom_dial-default config mode ip4 ip6 e =
    rw
      (
        is_some-none ip4 (ground arith),
        is_some-none ip6 (ground arith),
        is_some-none config.bind_device (ground arith),
        is_auto-auto mode (ground arith),
        fast,
        no_delay,
        (sixty config.tcp_keepalive_secs).0 (ground arith),
        is_some-none (positive config.connect_timeout_secs) (ground arith),
      )
      refl
  where
    fast : config.fast_open ≡ false
    fast = ground arith

    no_delay : config.tcp_nodelay ≡ true
    no_delay = ground arith

default-custom_dial :
    (config : DirectConfig) (mode : DirectMode) (ip4 : Option Ipv4Addr) (ip6 : Option Ipv6Addr)
    → direct_options config mode ip4 ip6 ≡ default_options
    → custom_dial config mode ip4 ip6 ≡ false
unfolding custom_dial direct_options is_some is_auto
default-custom_dial config mode ip4 ip6 e =
    rw
      (
        ap (λ o. o.bind_ip4) e,
        ap (λ o. o.bind_ip6) e,
        ap (λ o. o.bind_device) e,
        ap (λ o. o.mode) e,
        ap (λ o. o.fast_open) e,
        ap (λ o. o.tcp_nodelay) e,
        ap (λ o. o.timeout) e,
        (sixty config.tcp_keepalive_secs).1 (ap (λ o. o.tcp_keepalive) e),
      )
      refl

module _ {D : Type 0} (out : Outside D) where
  -- A direct handler is made with some options, and has no dialer of its own exactly if these are the
  -- default ones.
  abbrev pub Dialed : EntryResult (OutboundHandler D) → Type 0
  Dialed (failed e) = Unit {0}
  Dialed (made (direct d custom)) =
      (options : DirectOptions) × (out.with_options options ≡ some d)
      × ((custom_dialer (direct d custom) ≡ none) ↔ (options ≡ default_options))
  Dialed (made (socks5 d udp)) = Unit {0}
  Dialed (made (http d)) = Unit {0}
  Dialed (made (reject d)) = Unit {0}

  bind-Dialed :
      {A : Type 0} (r : EntryResult A) (k : A → EntryResult (OutboundHandler D))
      → ((a : A) → (r ≡ made a) → Dialed (k a))
      → Dialed (bind r k)
  unfolding bind
  bind-Dialed (made a) k h = h a refl
  bind-Dialed (failed e) k h = tt

  required-some :
      {A : Type 0} (e : EntryError) (o : Option A) (a : A) → required e o ≡ made a → o ≡ some a
  required-some e none a q = cc
  required-some e (some b) a q = cc

  direct_handler-Dialed : (config : DirectConfig) → Dialed (direct_handler out config)
  unfolding direct_handler custom_dialer
  direct_handler-Dialed config = bind-Dialed _ _ (λ mode _. bind-Dialed _ _ (λ ip4 _.
      bind-Dialed _ _ (λ ip6 _. bind-Dialed _ _ (λ _ _. bind-Dialed _ _ (λ _ _.
        bind-Dialed _ _ (λ _ _. bind-Dialed _ _ (λ d q. (
          direct_options config mode ip4 ip6,
          required-some _ (out.with_options (direct_options config mode ip4 ip6)) d q,
          plain d (custom_dial config mode ip4 ip6)
              (direct_options config mode ip4 ip6 ≡ default_options)
              (custom_dial-default config mode ip4 ip6, default-custom_dial config mode ip4 ip6),
        ))))))))
    where
      plain :
          (d : D) (custom : Bool) (P : Type 0)
          → ((custom ≡ false) ↔ P)
          → ((custom_dialer (direct d custom) ≡ none) ↔ P)
      plain d true P h = (λ q. cc, λ p. cc (h.1 p))
      plain d false P h = (λ q. h.0 refl, λ p. refl)

  socks5_handler-Dialed : (config : Socks5Config) → Dialed (socks5_handler out config)
  unfolding socks5_handler
  socks5_handler-Dialed config = go (credentials config.username config.password)
    where
      go :
          (o : Option (String × String))
          → Dialed (elim o [
            | some (username, password) ↦
                bind
                  (required EntryError.invalid_socks5
                    (out.socks5_with_auth config.addr username password))
                  (λ d. made (socks5 d config.allow_udp))
            | none ↦ made (socks5 (out.socks5_new config.addr) config.allow_udp)
          ])
      go none = tt
      go (some (username, password)) = bind-Dialed _ _ (λ d _. tt)

  http_handler-Dialed : (config : HttpConfig) → Dialed (http_handler out config)
  unfolding http_handler
  http_handler-Dialed config =
      bind-Dialed _ _ (λ d _. go d (credentials config.username config.password))
    where
      go :
          (d : D) (o : Option (String × String))
          → Dialed (elim o [
            | some (username, password) ↦ made (http (out.http_with_auth d username password))
            | none ↦ made (http d)
          ])
      go d none = tt
      go d (some (username, password)) = tt

  -- A direct outbound that an entry makes was made with some dialing options, and it has no dialer of
  -- its own, so that the router leaves it to the bare connect path, exactly if these are the default
  -- options: mode auto, nothing bound, no fast open, TCP_NODELAY, a keepalive of 60 seconds and no
  -- timeout of its own.
  pub from_entry-Dialed : (entry : OutboundEntry) → Dialed (from_entry out entry)
  unfolding from_entry
  from_entry-Dialed entry =
      pick _ _ (str_eq entry.outbound_type "direct")
        (direct_handler-Dialed (or_default_direct out entry.direct))
        (pick _ _ (str_eq entry.outbound_type "socks5")
          (bind-Dialed _ _ (λ config _. socks5_handler-Dialed config))
          (pick _ _ (str_eq entry.outbound_type "http")
            (bind-Dialed _ _ (λ config _. http_handler-Dialed config))
            (pick _ _ (str_eq entry.outbound_type "reject") tt tt)))
    where
      pick :
          (x y : EntryResult (OutboundHandler D)) (b : Bool)
          → Dialed x
          → Dialed y
          → Dialed (if b then x else y)
      pick x y true p q = p
      pick x y false p q = q
