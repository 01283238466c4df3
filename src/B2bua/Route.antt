-- ===== src/B2bua/Route.antt =====
-- A route of the call controller (`B2BRoute` of cmd/b2bua_radius/b2broute.go).
use go_b2bua.Prelude.{
  ℤ, ℕ, Bool, ◌&&◌, ◌||◌, not, String, Option, none, some, List, [], ◌∷◌, ◌++◌, if◌then◌else◌,
}
use go_b2bua.Sip.{HostPort, Header}
use go_b2bua.B2bua.Duration.{is_zero, exceeds}

-- `net.IP`: its text, and `IsIP4` of it
pub record Ip : Type 0 where
  pub text : String
  pub is_ip4 : Bool

pub record AinfoItem : Type 0 where
  pub ip : Ip
  pub port : String

-- `ainfo_item.HostPort`
abbrev pub host_port : AinfoItem → HostPort
host_port it = record { host = it.ip.text; port = it.port }

pub record B2bRoute : Type 0 where
  pub cld : String
  pub cld_set : Bool
  pub hostport : String
  pub hostonly : String
  pub huntstop_scodes : List ℕ
  pub ainfo : List AinfoItem
  pub credit_time : ℤ
  pub crt_set : Bool
  pub expires : ℤ
  pub no_progress_expires : ℤ
  pub forward_on_fail : Bool
  pub user : String
  pub passw : String
  pub cli : String
  pub cli_set : Bool
  pub caller_name : String
  pub extra_headers : List Header
  pub rtpp : Bool
  pub outbound_proxy : Option HostPort
  pub rnum : ℕ
  pub params : List (String × String)

-- the credit time under an upper limit, where 0 stands for none
abbrev pub limited : ℤ → ℤ → ℤ
limited max_credit_time credit_time =
    if not (is_zero max_credit_time) && (is_zero credit_time || exceeds credit_time max_credit_time)
    then max_credit_time
    else credit_time

-- `customize`
unfoldable pub customize : ℕ → String → String → ℤ → List Header → ℤ → B2bRoute → B2bRoute
customize rnum default_cld default_cli default_credit_time pass_headers max_credit_time r =
    record r {
      rnum = rnum;
      cld = if r.cld_set then r.cld else default_cld;
      cli = if r.cli_set then r.cli else default_cli;
      credit_time =
          limited max_credit_time (if r.crt_set then r.credit_time else default_credit_time);
      extra_headers = r.extra_headers ++ pass_headers;
    }

-- `self.ainfo[0].HostPort()`; none is an index out of range
abbrev pub first_addr : List AinfoItem → Option HostPort
first_addr [] = none
first_addr (it ∷ rest) = some (host_port it)

-- the first address of the family
unfoldable pub family_addr : Bool → List AinfoItem → Option HostPort
family_addr is_ip4 [] = none
family_addr is_ip4 (it ∷ rest) =
    let later = family_addr is_ip4 rest in
    if (is_ip4 && it.ip.is_ip4) || (not is_ip4 && not it.ip.is_ip4)
    then some (host_port it)
    else later

abbrev pub addr_or : Option HostPort → Option HostPort → Option HostPort
addr_or (some a) other = some a
addr_or none other = other

-- `getNHAddr`, with what `net.ParseIP` makes of the host that the call came from
unfoldable pub get_nh_addr : Option Ip → B2bRoute → Option HostPort
unfolding family_addr
get_nh_addr none r = first_addr r.ainfo
get_nh_addr (some src_ip) r = addr_or (family_addr src_ip.is_ip4 r.ainfo) (first_addr r.ainfo)
