-- ===== src/VmUpdate/Request.antt =====
-- vm_update_engine.py `Transaction.request` and the constants of vm_update_native.py. A request is
-- one that `Transaction.__init__` accepted, so its fields have types here.
use klokast_box.Prelude.{ℕ, String, Bool, true, false, Option, some, List}

-- `klokast.vm-switch.v1` to `.v5`, `klokast.vm-adoption.v1`.
pub data Kind : Type 0 where
  switch_v1 switch_v2 switch_v3 service retained adoption : Kind

pub data Role : Type 0 where
  bak dmz iot vpn_egress router ops air : Role

abbrev pub role_name : Role → String
role_name bak = "bak"
role_name dmz = "dmz"
role_name iot = "iot"
role_name vpn_egress = "vpn-egress"
role_name router = "router"
role_name ops = "ops"
role_name air = "air"

abbrev pub is_router : Role → Bool
is_router router = true
is_router _ = false

-- `SERVICE_KINDS`
abbrev pub is_service : Kind → Bool
is_service service = true
is_service retained = true
is_service _ = false

-- The kinds whose journal records the controller's liveness.
abbrev pub has_liveness : Kind → Bool
has_liveness switch_v2 = true
has_liveness switch_v3 = true
has_liveness _ = false

pub record LvIdentity : Type 0 where
  pub uuid : String
  pub bytes : ℕ

pub record ArtifactIdentity : Type 0 where
  pub sha256 : String
  pub bytes : ℕ

-- A disk of a Xen configuration, `phy:<path>,<vdev>,w`.
pub record DiskEntry : Type 0 where
  pub path : String
  pub vdev : String

pub data Side : Type 0 where
  old new : Side

-- What a request and its staged configuration record of one generation of the guest.
pub record Generation : Type 0 where
  pub uuid : String
  pub config_sha256 : String
  pub disks : List (String × LvIdentity)
  pub artifacts : List (String × ArtifactIdentity)
  pub config_disks : List DiskEntry

-- An adoption has no new generation. `contract` is the router's retained-state contract, in its
-- canonical text, and `digest` the digest of the whole request.
pub record Request : Type 0 where
  pub kind : Kind
  pub role : Role
  pub operation_id : String
  pub digest : String
  pub contract : String
  pub autostart : Bool
  pub replacement_seconds : ℕ
  pub recovery_seconds : ℕ
  pub before : Generation
  pub after : Option Generation

-- `request[side + '_…']`, a `KeyError` where there is none.
abbrev pub generation : Request → Side → Option Generation
generation r old = some r.before
generation r new = r.after
