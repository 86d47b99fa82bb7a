-- ===== src/Instructions/Tables/Net.antt =====
-- The network settings and the VPNs:
-- the structs of common/eInstructions.h with the
-- names that common/eInstructions.cpp reads and writes.
use Prim.Native.String.{String}
use vncc.Base.{List, [], ◌∷◌}
use vncc.Instructions.{string, array, Fields, Struct, declare, int, long, of_struct}

abbrev pub type_defaultset_members : Fields
type_defaultset_members = declare (("Protocol", string) ∷ ("Domain", string) ∷ [])

abbrev pub type_defaultset : Struct
type_defaultset = record { members = type_defaultset_members; reads = "Protocol" ∷ "Domain" ∷ [] }

abbrev pub type_specialset_members : Fields
type_specialset_members =
    declare (("key", string) ∷ ("Domain", string) ∷ ("SLD", string) ∷ ("Protocol", string) ∷ [])

abbrev pub type_specialset : Struct
type_specialset = record {
  members = type_specialset_members;
  reads = "key" ∷ "Domain" ∷ "SLD" ∷ "Protocol" ∷ [];
}

abbrev pub defaultset_members : Fields
defaultset_members = declare (
    ("DefaultSet", of_struct type_defaultset)
    ∷ ("SpecialSet", array (of_struct type_specialset))
    ∷ [])

abbrev pub defaultset : Struct
defaultset = record { members = defaultset_members; reads = "DefaultSet" ∷ "SpecialSet" ∷ [] }

abbrev pub vpnclassify_members : Fields
vpnclassify_members = declare (("ID", int 0) ∷ ("Name", string) ∷ [])

abbrev pub vpnclassify : Struct
vpnclassify = record { members = vpnclassify_members; reads = "ID" ∷ "Name" ∷ [] }

abbrev pub uservpn_members : Fields
uservpn_members = declare (
    ("ID", long 0)
    ∷ ("Name", string)
    ∷ ("Classify", int 0)
    ∷ ("Address", string)
    ∷ ("Prot", int 0)
    ∷ ("Account", string)
    ∷ ("Password", string)
    ∷ [])

abbrev pub uservpn : Struct
uservpn = record {
  members = uservpn_members;
  reads = "ID" ∷ "Name" ∷ "Classify" ∷ "Address" ∷ "Prot" ∷ "Account" ∷ "Password" ∷ [];
}

abbrev pub uservpn_writes : List String
uservpn_writes = "ID" ∷ "Name" ∷ "Classify" ∷ "Address" ∷ "Prot" ∷ "Account" ∷ "Password" ∷ []

abbrev pub uservpnlist_members : Fields
uservpnlist_members = declare (
    ("UserVpnList", array (of_struct uservpn))
    ∷ ("VpnClassifyList", array (of_struct vpnclassify))
    ∷ [])

abbrev pub uservpnlist : Struct
uservpnlist = record {
  members = uservpnlist_members;
  reads = "UserVpnList" ∷ "VpnClassifyList" ∷ [];
}

abbrev pub deviceordervpn_members : Fields
deviceordervpn_members = declare (("DeviceOrderID", long 0) ∷ ("UserVpnConfigID", long 0) ∷ [])

abbrev pub deviceordervpn : Struct
deviceordervpn = record {
  members = deviceordervpn_members;
  reads = "DeviceOrderID" ∷ "UserVpnConfigID" ∷ [];
}

abbrev pub deviceordervpn_writes : List String
deviceordervpn_writes = "DeviceOrderID" ∷ "UserVpnConfigID" ∷ []

abbrev pub setvpn_members : Fields
setvpn_members = declare (("SetDeviceOrderVpn", array (of_struct deviceordervpn)) ∷ [])

abbrev pub setvpn : Struct
setvpn = record { members = setvpn_members; reads = "SetDeviceOrderVpn" ∷ [] }
