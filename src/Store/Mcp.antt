-- ===== src/Store/Mcp.antt =====
-- app/storage.py: the tables `mcp_servers`, `mcp_tools`, `mcp_tool_permissions` and
-- `mcp_tool_usage_events`, and `scan_mcp_description` of app/mcp/models.py. Names, addresses and
-- schemas that no code compares are left out of the rows.
pub mod Quarantine
use Prim.Native.String.{String}
use safe4_arc_demo.Prelude.{
  ℕ, ◌+◌, ◌≡◌, Option, none, some, Bool, true, false, List, [], ◌∷◌, ◌++◌, ◌==◌, leb, ltb, not,
  if◌then◌else◌, ◌&&◌, ◌||◌, keep, is_some,
}
use safe4_arc_demo.Dict.{Dict, lookup, insert, adjust, map_option}

pub data TrustLevel : Type 0 where
  trusted verified unknown blocked : TrustLevel

pub record McpServer : Type 0 where
  pub trust_level : TrustLevel
  pub trust_level_reason : Option String
  pub description_hash : ℕ
  pub first_seen_at : ℕ
  pub last_seen_at : ℕ

unfoldable pub get_mcp_server : ℕ → Dict McpServer → Option McpServer
get_mcp_server server_id rows = lookup server_id rows

abbrev first_seen : ℕ → Option McpServer → ℕ
first_seen now none = now
first_seen now (some s) = s.first_seen_at

unfoldable pub upsert_mcp_server :
    ℕ → ℕ → TrustLevel → Option String → ℕ → Dict McpServer → Dict McpServer
upsert_mcp_server now server_id level reason description_hash rows =
    insert server_id
      (record {
        trust_level = level;
        trust_level_reason = reason;
        description_hash = description_hash;
        first_seen_at = first_seen now (lookup server_id rows);
        last_seen_at = now;
      })
      rows

abbrev pub trust : ℕ → TrustLevel → Option String → McpServer → McpServer
trust now level reason s = record s {
  trust_level = level;
  trust_level_reason = reason;
  last_seen_at = now;
}

unfoldable pub update_mcp_server_trust :
    ℕ → ℕ → TrustLevel → Option String → Dict McpServer → Option McpServer × Dict McpServer
update_mcp_server_trust now server_id level reason rows = (
  map_option (trust now level reason) (lookup server_id rows),
  adjust server_id (trust now level reason) rows,
)

pub data ThreatFlag : Type 0 where
  critical high description_changed : ThreatFlag
  other_flag : ℕ → ThreatFlag

pub data QuarantineStatus : Type 0 where
  clear review quarantined blocked_tool : QuarantineStatus

abbrev pub clear? : QuarantineStatus → Bool
clear? clear = true
clear? _ = false

abbrev pub is_critical : ThreatFlag → Bool
is_critical critical = true
is_critical _ = false

abbrev pub same_flag : ThreatFlag → ThreatFlag → Bool
same_flag critical critical = true
same_flag high high = true
same_flag description_changed description_changed = true
same_flag (other_flag a) (other_flag b) = a == b
same_flag _ _ = false

abbrev pub has : List ThreatFlag → ThreatFlag → Bool
has [] f = false
has (g ∷ gs) f = same_flag g f || has gs f

-- `set(prior) | set(new)`, in the order of first occurrence
unfoldable pub merge_flags : List ThreatFlag → List ThreatFlag → List ThreatFlag
merge_flags prior new = prior ++ keep (λ f. not (has prior f)) new

pub record McpTool : Type 0 where
  pub tool_name : ℕ
  pub server_id : ℕ
  pub description_hash : ℕ
  pub description_first_seen_hash : ℕ
  pub was_changed : Bool
  pub is_payment_relevant : Bool
  pub threat_flags : List ThreatFlag
  pub quarantine_status : QuarantineStatus
  pub created_at : ℕ
  pub updated_at : ℕ

-- The arguments of `upsert_mcp_tool`, without the texts.
pub record ToolScan : Type 0 where
  pub tool_name : ℕ
  pub server_id : ℕ
  pub description_hash : ℕ
  pub is_payment_relevant : Bool
  pub threat_flags : List ThreatFlag
  pub quarantine_status : QuarantineStatus

unfoldable pub get_mcp_tool : ℕ → Dict McpTool → Option McpTool
get_mcp_tool tool_id rows = lookup tool_id rows

abbrev empty? : List ThreatFlag → Bool
empty? [] = true
empty? _ = false

abbrev held : Option QuarantineStatus → Option QuarantineStatus
held (some quarantined) = some quarantined
held (some blocked_tool) = some blocked_tool
held _ = none

-- The status and the flags to store, from whether the description changed, the merged flags, the
-- status of the scan and the status that was stored.
unfoldable pub next_quarantine :
    Bool
    → List ThreatFlag
    → QuarantineStatus
    → Option QuarantineStatus
    → QuarantineStatus × List ThreatFlag
next_quarantine changed merged status prior =
    if changed && (empty? merged && clear? status)
    then (review, description_changed ∷ [])
    else if changed && has merged critical
    then (quarantined, merged)
    else if changed
    then (elim (held prior) [ some s ↦ s | none ↦ status ], merged)
    else (status, merged)

abbrev prior_flags : Option McpTool → List ThreatFlag
prior_flags none = []
prior_flags (some t) = t.threat_flags

abbrev prior_status : Option McpTool → Option QuarantineStatus
prior_status none = none
prior_status (some t) = some t.quarantine_status

abbrev first_hash : ℕ → Option McpTool → ℕ
first_hash h none = h
first_hash h (some t) = t.description_first_seen_hash

abbrev created : ℕ → Option McpTool → ℕ
created now none = now
created now (some t) = t.created_at

-- The row that `upsert_mcp_tool` stores over the existing one.
unfoldable pub upserted_tool : ℕ → ToolScan → Option McpTool → McpTool
upserted_tool now scan existing =
    let first = first_hash scan.description_hash existing in
    let changed = not (first == scan.description_hash) in
    let merged = merge_flags (prior_flags existing) scan.threat_flags in
    let (status, flags) =
      next_quarantine changed merged scan.quarantine_status (prior_status existing) in
    record {
      tool_name = scan.tool_name;
      server_id = scan.server_id;
      description_hash = scan.description_hash;
      description_first_seen_hash = first;
      was_changed = changed;
      is_payment_relevant = scan.is_payment_relevant;
      threat_flags = flags;
      quarantine_status = status;
      created_at = created now existing;
      updated_at = now;
    }

unfoldable pub upsert_mcp_tool : ℕ → ℕ → ToolScan → Dict McpTool → Dict McpTool
upsert_mcp_tool now tool_id scan rows =
    insert tool_id (upserted_tool now scan (lookup tool_id rows)) rows

abbrev requarantined : ℕ → QuarantineStatus → List ThreatFlag → McpTool → McpTool
requarantined now status flags t = record t {
  quarantine_status = status;
  threat_flags = flags;
  updated_at = now;
}

unfoldable pub update_mcp_tool_quarantine :
    ℕ → ℕ → QuarantineStatus → List ThreatFlag → Dict McpTool → Option McpTool × Dict McpTool
update_mcp_tool_quarantine now tool_id status flags rows = (
  map_option (requarantined now status flags) (lookup tool_id rows),
  adjust tool_id (requarantined now status flags) rows,
)

-- What `re.search` finds in a description: one of the critical patterns, one of the high ones, a
-- word of payments.
pub record Patterns : Type 0 where
  pub is_critical_text : ℕ → Bool
  pub is_high_text : ℕ → Bool
  pub is_payment_text : ℕ → Bool

unfoldable pub scan_mcp_description : Patterns → ℕ → List ThreatFlag × QuarantineStatus × Bool
scan_mcp_description p description =
    let c = p.is_critical_text description in
    let h = p.is_high_text description in
    let flags = (if c then critical ∷ [] else []) ++ (if h then high ∷ [] else []) in
    (flags, (if c then quarantined else if h then review else clear), p.is_payment_text description)

pub record Permission : Type 0 where
  pub allowed_actions : List ℕ
  pub daily_cap : Option ℕ
  pub transaction_cap : Option ℕ
  pub requires_hitl : Bool
  pub is_active : Bool
  pub created_at : ℕ
  pub updated_at : ℕ

-- Keyed by tool and user.
abbrev pub Permissions : Type 0
Permissions = ℕ → ℕ → Option Permission

unfoldable pub get_mcp_tool_permission : ℕ → ℕ → Permissions → Option Permission
get_mcp_tool_permission tool_id user_id rows = rows tool_id user_id

abbrev granted_at : ℕ → Option Permission → ℕ
granted_at now none = now
granted_at now (some p) = p.created_at

unfoldable pub upsert_mcp_tool_permission :
    ℕ → ℕ → ℕ → List ℕ → Option ℕ → Option ℕ → Bool → Permissions → Permissions
upsert_mcp_tool_permission now tool_id user_id actions daily limit hitl rows t u =
    if (t == tool_id) && (u == user_id)
    then some (record {
      allowed_actions = actions;
      daily_cap = daily;
      transaction_cap = limit;
      requires_hitl = hitl;
      is_active = true;
      created_at = granted_at now (rows tool_id user_id);
      updated_at = now;
    })
    else rows t u

abbrev deactivated : ℕ → Permission → Permission
deactivated now p = record p { is_active = false; updated_at = now }

-- Whether a row was updated, and the table.
unfoldable pub deactivate_mcp_tool_permission : ℕ → ℕ → ℕ → Permissions → Bool × Permissions
deactivate_mcp_tool_permission now tool_id user_id rows = (
  is_some (rows tool_id user_id),
  λ t u.
      if (t == tool_id) && (u == user_id)
      then map_option (deactivated now) (rows t u)
      else rows t u,
)

pub record Usage : Type 0 where
  pub tool_id : ℕ
  pub user_id : ℕ
  pub amount : ℕ
  pub currency : ℕ
  pub created_at : ℕ

unfoldable pub record_mcp_tool_usage : ℕ → ℕ → ℕ → ℕ → ℕ → List Usage → List Usage
record_mcp_tool_usage now tool_id user_id amount currency rows =
    rows
    ++ record {
      tool_id = tool_id;
      user_id = user_id;
      amount = amount;
      currency = currency;
      created_at = now;
    }
      ∷ []

abbrev counts_for : ℕ → ℕ → ℕ → ℕ → Usage → Bool
counts_for day_start tool_id user_id currency u =
    (u.tool_id == tool_id)
    && ((u.user_id == user_id) && ((u.currency == currency) && leb day_start u.created_at))

-- `SUM(amount)` of the rows since the day began.
unfoldable pub get_mcp_tool_spent_today : ℕ → ℕ → ℕ → ℕ → List Usage → ℕ
get_mcp_tool_spent_today day_start tool_id user_id currency [] = 0
get_mcp_tool_spent_today day_start tool_id user_id currency (u ∷ us) =
    (if counts_for day_start tool_id user_id currency u then u.amount else 0)
    + get_mcp_tool_spent_today day_start tool_id user_id currency us
