-- ===== src/Instructions/Tables/Device.antt =====
-- The cloud phones, their groups and what a phone answers:
-- the structs of common/eInstructions.h with the
-- names that common/eInstructions.cpp reads and writes.
use vncc.Base.{[], ◌∷◌, some, true, false}
use vncc.Instructions.{
  pos, unsigned_type, unsigned_long_long_type, integer, boolean, string, wstring, array, struct,
  Fields, Struct, declare, int, long, of_struct,
}
use vncc.Instructions.Tables.Account.{pages, user_data, websocketinfo}

abbrev pub mobiledevice_members : Fields
mobiledevice_members = declare (
    ("AuthToken", string)
    ∷ ("UseWebRTC", boolean true)
    ∷ ("MobileDeviceID", long 0)
    ∷ ("PhoneGUID", string)
    ∷ ("MobileName", string)
    ∷ ("PhysicalProperty", int 0)
    ∷ ("HostComputerID", long 0)
    ∷ ("UseState", int 0)
    ∷ ("CreateTime", long 0)
    ∷ ("LastUpdateTime", long 0)
    ∷ ("HealthState", int 0)
    ∷ ("vgpus", string)
    ∷ ("RunMemory", string)
    ∷ ("IP", string)
    ∷ ("IPPort", int 0)
    ∷ ("LocalIP", string)
    ∷ ("LocalPort", int 0)
    ∷ ("ControlPort", int 0)
    ∷ ("AVPort", int 0)
    ∷ ("VoicePort", int 0)
    ∷ ("AdbPort", int 0)
    ∷ ("WebRTCIP", string)
    ∷ ("WebRTCPort", int 0)
    ∷ ("IsRoot", boolean false)
    ∷ ("MultiMode", int 0)
    ∷ ("MessagePort", int 0)
    ∷ ("DeviceSource", int 0)
    ∷ [])

abbrev pub mobiledevice : Struct
mobiledevice = record {
  members = mobiledevice_members;
  reads =
      "UseWebRTC" ∷ "MobileDeviceID" ∷ "PhoneGUID" ∷ "MobileName" ∷ "PhysicalProperty"
      ∷ "HostComputerID" ∷ "UseState" ∷ "CreateTime" ∷ "LastUpdateTime" ∷ "HealthState" ∷ "vgpus"
      ∷ "RunMemory" ∷ "IP" ∷ "IPPort" ∷ "LocalIP" ∷ "LocalPort" ∷ "ControlPort" ∷ "AVPort"
      ∷ "VoicePort" ∷ "AdbPort" ∷ "WebRTCIP" ∷ "WebRTCPort" ∷ "IsRoot" ∷ "MultiMode" ∷ "MessagePort"
      ∷ "DeviceSource" ∷ "AuthToken" ∷ [];
}

abbrev pub task_state_members : Fields
task_state_members =
    declare
      (("bpending", boolean false) ∷ ("ts", integer unsigned_long_long_type (some (pos 0))) ∷ [])

abbrev pub usermobiledevice_members : Fields
usermobiledevice_members = declare (
    ("ModelID", long 0)
    ∷ ("ModelName", string)
    ∷ ("DeviceOrderID", long 0)
    ∷ ("MobileDeviceInfo", of_struct mobiledevice)
    ∷ ("ExpireTime", long 0)
    ∷ ("gID", long 0)
    ∷ ("bsel", boolean false)
    ∷ ("BkImg", wstring)
    ∷ ("task", struct task_state_members [])
    ∷ ("UserVpnConfigID", long 0)
    ∷ [])

abbrev pub usermobiledevice : Struct
usermobiledevice = record {
  members = usermobiledevice_members;
  reads =
      "ModelID" ∷ "ModelName" ∷ "DeviceOrderID" ∷ "MobileDeviceInfo" ∷ "ExpireTime"
      ∷ "UserVpnConfigID" ∷ [];
}

abbrev pub userphones_members : Fields
userphones_members =
    declare (("UserPhones", array (of_struct usermobiledevice)) ∷ ("Page", of_struct pages) ∷ [])

abbrev pub userphones : Struct
userphones = record { members = userphones_members; reads = "UserPhones" ∷ "Page" ∷ [] }

abbrev pub connect_info_members : Fields
connect_info_members = declare (
    ("MobileDeviceInfo", of_struct mobiledevice)
    ∷ ("ExpireCountDown", long 0)
    ∷ ("ExpireTime", long 0)
    ∷ ("Extendstring", string)
    ∷ ("MultiMode", int 0)
    ∷ [])

abbrev pub connect_info : Struct
connect_info = record {
  members = connect_info_members;
  reads = "MobileDeviceInfo" ∷ "ExpireCountDown" ∷ "ExpireTime" ∷ "Extendstring" ∷ "MultiMode" ∷ [];
}

abbrev pub group_info_members : Fields
group_info_members = declare (("ID", long 0) ∷ ("Name", string) ∷ ("DeviceCount", int 0) ∷ [])

abbrev pub group_info : Struct
group_info = record { members = group_info_members; reads = "ID" ∷ "Name" ∷ "DeviceCount" ∷ [] }

abbrev pub groupino_agg_data_members : Fields
groupino_agg_data_members = declare (
    ("ID", long 0)
    ∷ ("Name", string)
    ∷ ("DeviceCount", int 0)
    ∷ ("MobileDeviceIDs", array (long 0))
    ∷ [])

abbrev pub groupino_agg_data : Struct
groupino_agg_data = record {
  members = groupino_agg_data_members;
  reads = "ID" ∷ "Name" ∷ "DeviceCount" ∷ "MobileDeviceIDs" ∷ [];
}

abbrev pub group_datas_members : Fields
group_datas_members = declare (("GroupDatas", array (of_struct group_info)) ∷ [])

abbrev pub group_datas : Struct
group_datas = record { members = group_datas_members; reads = "GroupDatas" ∷ [] }

abbrev pub rhloginret_members : Fields
rhloginret_members = declare (
    ("UserData", of_struct user_data)
    ∷ ("DeviceData", of_struct mobiledevice)
    ∷ ("WebSocketData", of_struct websocketinfo)
    ∷ [])

abbrev pub rhloginret : Struct
rhloginret = record {
  members = rhloginret_members;
  reads = "UserData" ∷ "DeviceData" ∷ "WebSocketData" ∷ [];
}

abbrev pub screencap_members : Fields
screencap_members = declare (("image", string) ∷ ("vpnstatus", string) ∷ [])

abbrev pub screencap : Struct
screencap = record { members = screencap_members; reads = "image" ∷ "vpnstatus" ∷ [] }

abbrev pub base_proto_members : Fields
base_proto_members = declare (
    ("cmdType", int 0)
    ∷ ("device", int 0)
    ∷ ("reqid", integer unsigned_type (some (pos 0)))
    ∷ ("isSuccess", boolean false)
    ∷ ("stt", string)
    ∷ ("data", string)
    ∷ [])

abbrev pub base_proto : Struct
base_proto = record {
  members = base_proto_members;
  reads = "cmdType" ∷ "device" ∷ "stt" ∷ "isSuccess" ∷ "data" ∷ "reqid" ∷ [];
}
