-- ===== src/Tests/Command.antt =====
-- The theorems on the two commands, and on the addresses that the page of a laptop shows.
use hilforge.Base.{
  ℕ, ◌≡◌, ◌⊎◌, refl, sym, subst, String, true, Option, none, some, is_some, str_eq, ◌||◌,
  if◌then◌else◌, Bool-cases, inl, inr, some-injective, Bool, false, List, [], ◌∷◌, any, ◌&&◌,
  Ascending, All, length, ◌∙◌,
}
use hilforge.Domain.Rows.{Db}
use hilforge.Config.{Settings}
use hilforge.Schemas.{accepts_device}
use hilforge.Devices.{register_device}
use hilforge.Devices.Text.{rstrip_slash}
use hilforge.Execution.Claim.{timeout_for}
use hilforge.Agent.Registration.{HttpUrl, registration_of}
use hilforge.Text.{Codes, codes, lower}
use hilforge.Web.Network.{IpAddress, AddressLibrary, Listed, starts_with, primary_network_addresses}
use hilforge.Web.Network.Names.{IsWireless, IsWired, IsVirtual}
use hilforge.Web.Network.Addresses.{IsRouted}
use hilforge.Web.Network.Shown.{IsShownFor, Shows, WirelessFirst, primary_network_addresses_lem}
use hilforge.Domain.Json.{Json, str, obj, field, end}
use hilforge.Ci.Output.{Exchange, response}
use hilforge.HostAgent.Command.{HostArgs, HostAgentSettings, host_registration, host_main}
use hilforge.HostAgent.Command.Served.{IsReachable, host_main-IsReachable}

abbrev laptop : HttpUrl
laptop = record {
  text = "http://192.168.1.5:9000/";
  scheme = "http";
  host = some "192.168.1.5";
  port = some 9000;
  path = some "/";
}

-- A library that knows one address, with and without the slash.
abbrev read_laptop : String → Option HttpUrl
read_laptop text =
    if str_eq text "http://192.168.1.5:9000" || str_eq text "http://192.168.1.5:9000/"
    then some laptop
    else none

abbrev host_args : HostArgs
host_args = record {
  server = "http://192.168.1.5:9000";
  public_url = "http://192.168.1.5:9000/";
  name = "bench";
}

abbrev windows : String
windows = "win32"

reads_printed :
    (text : String) (url : HttpUrl)
    → read_laptop text ≡ some url
    → is_some (read_laptop (rstrip_slash url.text)) ≡ true
unfolding rstrip_slash
reads_printed text url e =
    elim (Bool-cases
      (str_eq text "http://192.168.1.5:9000" || str_eq text "http://192.168.1.5:9000/")) [
        | inl known ↦
            let here : laptop ≡ url = some-injective laptop url (sym (rw known refl) ∙ e) in
            subst (λ u. is_some (read_laptop (rstrip_slash u.text)) ≡ true) here refl
        | inr other ↦ let refused : read_laptop text ≡ none = rw other refl in cc
      ]

host_main-IsReachable_example :
    (host_main windows read_laptop host_args ≡ (2, none))
    ⊎ ((settings : HostAgentSettings) × (host_main windows read_laptop host_args
          ≡ (0, some settings))
        × (windows ≡ "win32")
        × IsReachable settings.public_url
        × let registration = registration_of (host_registration settings) in
          (accepts_device (λ text. is_some (read_laptop text)) registration ≡ true)
          × ((server : Settings) (new_id now : ℕ) (db : Db)
              → timeout_for server (register_device registration new_id now db).0
                ≡ server.host_job_timeout_seconds))
host_main-IsReachable_example = host_main-IsReachable windows read_laptop host_args reads_printed

-- The command serves there.
serves : (host_main windows read_laptop host_args).0 ≡ 0
unfolding host_main hilforge.HostAgent.Command.host_settings
    hilforge.HostAgent.Command.validate_public_url hilforge.HostAgent.Command.is_port
    hilforge.HostAgent.Command.is_root hilforge.HostAgent.Command.is_bind_address
serves = refl

abbrev addresses : AddressLibrary
unfolding starts_with
addresses = record {
  casefold = lower;
  ip_address = λ a. some (record {
    is_link_local = starts_with (codes "fe80") a;
    is_loopback = starts_with (codes "127.") a;
    is_multicast = false;
    is_unspecified = false;
  });
}

abbrev interfaces : List Listed
interfaces =
    (codes "Ethernet", codes "10.0.0.2" ∷ [])
    ∷ (codes "vEthernet", codes "172.20.0.1" ∷ [])
    ∷ (codes "Wi-Fi", codes "fe80::1%5" ∷ codes "192.168.1.5" ∷ [])
    ∷ []

primary_network_addresses_lem_example :
    let shown = primary_network_addresses addresses interfaces in
    All (IsShownFor addresses interfaces) shown
    × All
        (λ i.
          IsWireless (addresses.casefold i.0) ⊎ IsWired (addresses.casefold i.0)
          → ¬ IsVirtual (addresses.casefold i.0)
          → All (λ a. IsRouted addresses a → Shows shown i.0 a) i.1)
        interfaces
    × WirelessFirst addresses shown
primary_network_addresses_lem_example = primary_network_addresses_lem addresses interfaces

shows :
    primary_network_addresses addresses interfaces
    ≡ (codes "Wi-Fi", codes "192.168.1.5" ∷ []) ∷ (codes "Ethernet", codes "10.0.0.2" ∷ []) ∷ []
unfolding primary_network_addresses hilforge.Web.Network.useful hilforge.Web.Network.consider
    hilforge.Web.Network.priority_of hilforge.Web.Network.is_virtual hilforge.Web.Network.is_routed
    hilforge.Web.Network.may_precede hilforge.Web.Network.starts_with hilforge.Web.Network.occurs_in
    hilforge.Web.Network.without_zone hilforge.Base.order_by hilforge.Base.insert_by lower
shows = refl

abbrev conflict : Exchange
conflict = response (record {
  status_code = 409;
  reason_phrase = codes "Conflict";
  document = some (obj (field "detail" (str "No devices\nare available") end));
})

abbrev detail_text : Json → Codes
detail_text (str text) = codes text
detail_text _ = []
