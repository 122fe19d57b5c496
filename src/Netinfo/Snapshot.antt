-- ===== src/Netinfo/Snapshot.antt =====
-- lib/netinfo-private.c: the snapshot of the interfaces, from the netlink replies that `recvmsg`
-- returns. `regexec`, the wireless ioctl and the ethtool ioctls are parameters, and sockets can be
-- opened.
use nagios_plugins_linux.Base.{
  ℕ, ◌-◌, ◌^◌, ◌≡◌, Bool, true, false, ◌&&◌, ◌||◌, not, [], ◌∷◌, ◌++◌, List, Option, none, some,
  Bytes, ◌==◌, if◌then◌else◌, bit_of,
}
use nagios_plugins_linux.Messages.{NagStatus, state_unknown}
use nagios_plugins_linux.Netinfo.{Ifstats, Interface, no_loopback, no_wireless, if_flags_loopback}

-- RTM_NEWLINK with its attributes, a null attribute being `none`.
pub record Link : Type 0 where
  pub ifla_ifname : Option Bytes
  pub ifi_flags : ℕ
  pub ifla_stats : Option Ifstats

-- `h->nlmsg_type`
pub data Message : Type 0 where
  nlmsg_done : Message
  rtm_newlink : Link → Message
  other_message : Message

-- What `ioctl (fd, SIOCETHTOOL, …)` stores for one of the two requests: `duplex` and `speed`; `none`
-- is an error.
pub record LinkSpeed : Type 0 where
  pub duplex : ℕ
  pub speed : ℕ

-- DUPLEX_UNKNOWN of <linux/ethtool.h>
abbrev duplex_unknown : ℕ
duplex_unknown = 255

-- `if (*speed == (uint16_t)(-1) || *speed == (uint32_t)(-1)) *speed = 0;`
unfoldable pub normalized : LinkSpeed → LinkSpeed
normalized s = if s.speed == 2 ^ 16 - 1 || s.speed == 2 ^ 32 - 1 then record s { speed = 0 } else s

-- ETHTOOL_GLINKSETTINGS behind its handshake, and ETHTOOL_GSET where that fails.
unfoldable pub check_link_speed : Option LinkSpeed → Option LinkSpeed → LinkSpeed
unfolding normalized
check_link_speed (some settings) gset = normalized settings
check_link_speed none (some ecmd) = normalized ecmd
check_link_speed none none = normalized (record { duplex = duplex_unknown; speed = 0 })

-- What a step comes to: it goes on, it ends the process through `plugin_error`, or it reads through
-- the pointer that RTA_DATA makes of a null attribute, which is not null.
pub data Step (A : Type 0) : Type 0 where
  proceeds : A → Step A
  stops : NagStatus → Step A
  bad_pointer : Step A

unfoldable pub and_then : {A B : Type 0} → Step A → (A → Step B) → Step B
and_then (proceeds a) f = f a
and_then (stops status) f = stops status
and_then bad_pointer f = bad_pointer

-- What the ioctls and the regular expression say of a name.
pub record Host : Type 0 where
  pub link_wireless : Bytes → Bool
  pub glinksettings : Bytes → Option LinkSpeed
  pub gset : Bytes → Option LinkSpeed
  pub regexec_matches : Bytes → Bool

module _ (host : Host) (options : ℕ) where
  unfoldable pub skip_interface : Bytes → ℕ → Bool
  skip_interface name flags =
      (if_flags_loopback flags && bit_of options no_loopback)
      || (host.link_wireless name && bit_of options no_wireless)
      || not (host.regexec_matches name)

  unfoldable pub new_interface : Bytes → Ifstats → Link → Interface
  unfolding check_link_speed
  new_interface name stats l =
      let s = check_link_speed (host.glinksettings name) (host.gset name) in
      record {
        ifname = name;
        duplex = s.duplex;
        speed = s.speed;
        flags = l.ifi_flags;
        stats = some stats;
      }

  -- From the new node on; `if (stats)` is no test for the attribute.
  append_link : Bytes → Option Ifstats → Link → List Interface → Step (List Interface)
  unfolding new_interface
  append_link name none l iflhead = bad_pointer
  append_link name (some stats) l iflhead = proceeds (iflhead ++ new_interface name stats l ∷ [])

  -- The case of RTM_NEWLINK, with the list so far, whose last node is `iflprev`.
  add_link : Option Bytes → Link → List Interface → Step (List Interface)
  unfolding skip_interface append_link
  add_link none l iflhead = stops state_unknown
  add_link (some name) l iflhead =
      if skip_interface name l.ifi_flags
      then proceeds iflhead
      else append_link name l.ifla_stats l iflhead

  -- The `for` over a reply: `break` in the case of NLMSG_DONE leaves the `switch` only.
  unfoldable pub read_reply : List Message → Bool → List Interface → Step (Bool × List Interface)
  unfolding add_link and_then
  read_reply [] msg_done iflhead = proceeds (msg_done, iflhead)
  read_reply (nlmsg_done ∷ rest) msg_done iflhead = read_reply rest true iflhead
  read_reply (rtm_newlink l ∷ rest) msg_done iflhead =
      and_then (add_link l.ifla_ifname l iflhead) λ iflhead'. read_reply rest msg_done iflhead'
  read_reply (other_message ∷ rest) msg_done iflhead = read_reply rest msg_done iflhead

  -- The `while` over the replies; a run that waits for another reply has no result, `none`.
  read_replies : List (List Message) → List Interface → Step (Option (List Interface))
  unfolding read_reply and_then
  read_replies [] iflhead = proceeds none
  read_replies (reply ∷ replies) iflhead =
      and_then (read_reply reply false iflhead)
        λ r. if r.0 then proceeds (some r.1) else read_replies replies r.1

  -- `sent` is whether `sendmsg` succeeds.
  unfoldable pub get_netinfo_snapshot : Bool → List (List Message) → Step (Option (List Interface))
  unfolding read_replies
  get_netinfo_snapshot sent replies = if sent then read_replies replies [] else stops state_unknown

  -- The interface of a link, if it is not skipped, in front of others.
  abbrev pub keep : Option Bytes → Option Ifstats → Link → List Interface → List Interface
  keep (some name) (some stats) l rest =
      if skip_interface name l.ifi_flags then rest else new_interface name stats l ∷ rest
  keep _ _ l rest = rest

  abbrev pub kept : List Message → List Interface
  kept [] = []
  kept (nlmsg_done ∷ rest) = kept rest
  kept (other_message ∷ rest) = kept rest
  kept (rtm_newlink l ∷ rest) = keep l.ifla_ifname l.ifla_stats l (kept rest)

  abbrev pub kept_all : List (List Message) → List Interface
  kept_all [] = []
  kept_all (reply ∷ replies) = kept reply ++ kept_all replies

-- Whether a reply holds NLMSG_DONE.
abbrev pub is_last : List Message → Bool
is_last [] = false
is_last (nlmsg_done ∷ rest) = true
is_last (rtm_newlink l ∷ rest) = is_last rest
is_last (other_message ∷ rest) = is_last rest

abbrev IsGiven : {A : Type 0} → Option A → Type 0
IsGiven none = ⊥
IsGiven (some a) = Unit

-- Every link of a reply has its name and its statistics.
abbrev pub AllGiven : List Message → Type 0
AllGiven [] = Unit
AllGiven (nlmsg_done ∷ rest) = AllGiven rest
AllGiven (rtm_newlink l ∷ rest) = (IsGiven l.ifla_ifname × IsGiven l.ifla_stats) × AllGiven rest
AllGiven (other_message ∷ rest) = AllGiven rest

-- In each of the replies all links are complete, and it is not the last one.
abbrev pub AllEarlier : List (List Message) → Type 0
AllEarlier [] = Unit
AllEarlier (reply ∷ replies) = (AllGiven reply × (is_last reply ≡ false)) × AllEarlier replies
