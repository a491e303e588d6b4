-- ===== src/Alert/Recipients.antt =====
-- alertengine/dispatch.go: who is notified of an alert, and what is read ahead of a change.
use health_beat.Prelude.{
  ℕ, String, Bool, true, false, not, Option, none, some, List, [], ◌∷◌, any, ◌==◌, string_eq,
  nat_eq, if◌then◌else◌,
}
use health_beat.Alert.Types.{Level, Alert}
use health_beat.Alert.World.{on_ok, on_some, M, ◌>>=◌, pure, now, read}

-- store.Recipient, less the fields that only a preview shows.
pub record Recipient : Type 0 where
  pub channel : String
  pub address : String
  pub name : String
  pub channel_off : Bool
  pub no_access : Bool

pub data SkipReason : Type 0 where
  channel_off channel_not_supported no_access : SkipReason

pub record SkippedRecipient : Type 0 where
  pub recipient : Recipient
  pub reason : SkipReason

pub record MessageContext : Type 0 where
  pub org_name : String
  pub host_title : String
  pub host_ip : String
  pub hostname : String
  pub deferred : Bool

-- What the dispatcher reads of a host.
pub record HostView : Type 0 where
  pub title : String
  pub ip : String
  pub hostname : Option String
  pub organization_id : ℕ

-- What is read ahead of a change (`pending`).
pub record Prepared : Type 0 where
  pub recipients : List Recipient
  pub context : MessageContext
  pub suppressed : Bool

-- The engine's fixed parts and the tables that it only reads. `in_window host t` is
-- maintenance.ActiveAt over ForHost, `none` where the engine has no maintenance store.
-- `build_message` is message.go, `id_text` the text of a UUID.
pub record Dispatcher : Type 0 where
  pub notifiers : List String
  pub resolve_recipients : ℕ → ℕ → Level → List Recipient
  pub in_window : Option (ℕ → ℕ → Bool)
  pub host_by_id : ℕ → Option HostView
  pub org_by_id : ℕ → Option String
  pub id_text : ℕ → String
  pub build_message : Alert → MessageContext → String × String
  pub has_worker : Bool

-- Why a recipient gets nothing; the checks in the order of the switch.
unfoldable pub skip_reason : List String → Recipient → Option SkipReason
skip_reason notifiers r =
    if r.no_access
    then some no_access
    else if r.channel_off
    then some channel_off
    else if not (any (λ c. c == r.channel) notifiers)
    then some channel_not_supported
    else none

abbrev pub sort_out :
    Option SkipReason
    → Recipient
    → List Recipient × List SkippedRecipient
    → List Recipient × List SkippedRecipient
sort_out none r (send, skipped) = (r ∷ send, skipped)
sort_out (some reason) r (send, skipped) =
    (send, record { recipient = r; reason = reason } ∷ skipped)

-- Recipients to send to, and those skipped with the reason; the order is kept.
unfoldable pub deliverable : List String → List Recipient → List Recipient × List SkippedRecipient
deliverable notifiers [] = ([], [])
deliverable notifiers (r ∷ rs) = sort_out (skip_reason notifiers r) r (deliverable notifiers rs)

abbrev pub no_context : MessageContext
no_context = record {
  org_name = "";
  host_title = "";
  host_ip = "";
  hostname = "";
  deferred = false;
}

-- The zero value of `pending`.
abbrev pub nobody : Prepared
nobody = record { recipients = []; context = no_context; suppressed = false }

-- A row of another table: not there, or not readable.
unfoldable pub read_row : {A : Type 0} → Option A → M (Option A)
read_row row = do r ← read row; on_ok r (λ o. pure o) (pure none)

abbrev with_host : Option HostView → MessageContext → MessageContext
with_host none mc = mc
with_host (some h) mc = record mc {
  host_title = h.title;
  host_ip = h.ip;
  hostname = elim h.hostname [
    | none ↦ mc.hostname
    | some name ↦ if name == "" then mc.hostname else name
  ];
}

abbrev with_org : Option String → MessageContext → MessageContext
with_org none mc = mc
with_org (some name) mc = record mc { org_name = name }

module _ (e : Dispatcher) where
  unfoldable pub in_maintenance : ℕ → M Bool
  in_maintenance host =
      on_some e.in_window
        (λ active. do t ← now; r ← read (active host t); on_ok r (λ busy. pure busy) (pure false))
        (pure false)

  unfoldable pub message_context : ℕ → ℕ → M MessageContext
  message_context host org = do
    h ← read_row (e.host_by_id host)
    o ← read_row (e.org_by_id org)
    pure (
        with_org o (
          with_host h (record {
            org_name = e.id_text org;
            host_title = e.id_text host;
            host_ip = "";
            hostname = "—";
            deferred = false;
          })))

  unfoldable pub prepare_for : ℕ → ℕ → List Recipient → M Prepared
  prepare_for host org [] = pure nobody
  prepare_for host org (r ∷ rs) = do
    mc ← message_context host org
    pure (record { recipients = r ∷ rs; context = mc; suppressed = false })

  unfoldable pub prepare : ℕ → ℕ → Level → M Prepared
  prepare host org level = do
    busy ← in_maintenance host
    if busy then pure (record nobody { suppressed = true }) else do
      r ← read (e.resolve_recipients host org level)
      on_ok r (λ recipients. prepare_for host org (deliverable e.notifiers recipients).0)
          (pure nobody)
