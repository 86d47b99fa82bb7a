-- ===== src/Instructions/Tables/Account.antt =====
-- The account, its messages and tokens, and the answers that carry them:
-- the structs of common/eInstructions.h with the
-- names that common/eInstructions.cpp reads and writes.
use vncc.Base.{[], ◌∷◌, none, some, true}
use vncc.Instructions.{
  negsuc, pos, int_type, long_long_type, integer, boolean, real, string, array, Fields, Struct,
  declare, int, long, of_struct,
}

abbrev pub web_response_pack_base_members : Fields
web_response_pack_base_members = declare (
    ("Code", integer int_type (some (negsuc 0)))
    ∷ ("Msg", string)
    ∷ ("requestID", string)
    ∷ ("TimeStamp", integer long_long_type (some (pos 0)))
    ∷ ("R", integer int_type (some (negsuc 0)))
    ∷ ("Sign", string)
    ∷ ("Data", string)
    ∷ [])

abbrev pub web_response_pack_base : Struct
web_response_pack_base = record {
  members = web_response_pack_base_members;
  reads = "Code" ∷ "Msg" ∷ "requestID" ∷ "TimeStamp" ∷ "R" ∷ "Sign" ∷ "Data" ∷ [];
}

abbrev pub user_data_members : Fields
user_data_members = declare (
    ("UserID", long 0)
    ∷ ("UserName", string)
    ∷ ("NickName", string)
    ∷ ("AccessToken", string)
    ∷ ("Photo", string)
    ∷ ("UploadFileSize", real)
    ∷ ("UploadTotalSize", int 0)
    ∷ [])

abbrev pub user_data : Struct
user_data = record {
  members = user_data_members;
  reads =
      "UserID" ∷ "UserName" ∷ "NickName" ∷ "AccessToken" ∷ "Photo" ∷ "UploadFileSize"
      ∷ "UploadTotalSize" ∷ [];
}

abbrev pub login_data_members : Fields
login_data_members = declare (("UserData", of_struct user_data) ∷ [])

abbrev pub login_data : Struct
login_data = record { members = login_data_members; reads = "UserData" ∷ [] }

abbrev pub pages_members : Fields
pages_members = declare (
    ("PageCount", int 0)
    ∷ ("CurrentPage", int 0)
    ∷ ("PageSize", int 0)
    ∷ ("DataCount", int 0)
    ∷ ("IsLastPage", boolean true)
    ∷ [])

abbrev pub pages : Struct
pages = record {
  members = pages_members;
  reads = "PageCount" ∷ "CurrentPage" ∷ "PageSize" ∷ "DataCount" ∷ "IsLastPage" ∷ [];
}

abbrev pub codetoken_members : Fields
codetoken_members = declare (("CodeToken", string) ∷ [])

abbrev pub codetoken : Struct
codetoken = record { members = codetoken_members; reads = "CodeToken" ∷ [] }

abbrev pub qrdata_members : Fields
qrdata_members = declare (("id", long 0) ∷ ("code", int 0) ∷ ("data", string) ∷ [])

abbrev pub qrdata : Struct
qrdata = record { members = qrdata_members; reads = "id" ∷ "code" ∷ "data" ∷ [] }

abbrev pub msginfo_members : Fields
msginfo_members = declare (
    ("ID", long 0)
    ∷ ("MsgType", int 0)
    ∷ ("MsgSource", int 0)
    ∷ ("Title", string)
    ∷ ("Content", string)
    ∷ ("MsgDate", string)
    ∷ ("MsgDisplay", int 0)
    ∷ [])

abbrev pub msginfo : Struct
msginfo = record {
  members = msginfo_members;
  reads = "ID" ∷ "MsgType" ∷ "MsgSource" ∷ "Title" ∷ "Content" ∷ "MsgDate" ∷ "MsgDisplay" ∷ [];
}

abbrev pub msgdata_members : Fields
msgdata_members = declare (("MsgData", array (of_struct msginfo)) ∷ [])

abbrev pub msgdata : Struct
msgdata = record { members = msgdata_members; reads = "MsgData" ∷ [] }

abbrev pub deviceauthtoken_members : Fields
deviceauthtoken_members =
    declare (("AccessToken", string) ∷ ("ExpireTime", long 0) ∷ ("ExpireCountDown", long 0) ∷ [])

abbrev pub deviceauthtoken : Struct
deviceauthtoken = record {
  members = deviceauthtoken_members;
  reads = "AccessToken" ∷ "ExpireTime" ∷ "ExpireCountDown" ∷ [];
}

abbrev pub mobiledevicetoken_members : Fields
mobiledevicetoken_members =
    declare (("DeviceOrderID", long 0) ∷ ("DeviceAuthToken", of_struct deviceauthtoken) ∷ [])

abbrev pub mobiledevicetoken : Struct
mobiledevicetoken = record {
  members = mobiledevicetoken_members;
  reads = "DeviceOrderID" ∷ "DeviceAuthToken" ∷ [];
}

abbrev pub mobiledevicetokens_members : Fields
mobiledevicetokens_members =
    declare (("MobileDeviceTokens", array (of_struct mobiledevicetoken)) ∷ [])

abbrev pub mobiledevicetokens : Struct
mobiledevicetokens = record {
  members = mobiledevicetokens_members;
  reads = "MobileDeviceTokens" ∷ [];
}

abbrev pub websocketinfo_members : Fields
websocketinfo_members = declare (("Ip", string) ∷ ("Port", int 0) ∷ [])

abbrev pub websocketinfo : Struct
websocketinfo = record { members = websocketinfo_members; reads = "Ip" ∷ "Port" ∷ [] }

abbrev pub player_cmd_members : Fields
player_cmd_members = declare (("winid", int 0) ∷ [])

abbrev pub player_cmd : Struct
player_cmd = record { members = player_cmd_members; reads = "winid" ∷ [] }

abbrev pub navite_jsparam_members : Fields
navite_jsparam_members =
    declare (("name", string) ∷ ("param", string) ∷ ("asyncID", string) ∷ ("ddframe", string) ∷ [])

abbrev pub navite_jsparam : Struct
navite_jsparam = record {
  members = navite_jsparam_members;
  reads = "name" ∷ "param" ∷ "asyncID" ∷ "ddframe" ∷ [];
}

abbrev pub open_browser_jsparam_members : Fields
open_browser_jsparam_members = declare (("url", string) ∷ [])

abbrev pub open_browser_jsparam : Struct
open_browser_jsparam = record { members = open_browser_jsparam_members; reads = "url" ∷ [] }

abbrev pub wsdata_members : Fields
wsdata_members = declare (("type", integer int_type none) ∷ ("data", string) ∷ [])

abbrev pub wsdata : Struct
wsdata = record { members = wsdata_members; reads = "type" ∷ "data" ∷ [] }

abbrev pub host_domain_members : Fields
host_domain_members =
    declare (("RsHost", string) ∷ ("RsfHost", string) ∷ ("SrcUpHosts", string) ∷ [])

abbrev pub host_domain : Struct
host_domain = record {
  members = host_domain_members;
  reads = "RsHost" ∷ "RsfHost" ∷ "SrcUpHosts" ∷ [];
}

abbrev pub uploadfilesucc_members : Fields
uploadfilesucc_members = declare (("UploadFileSize", real) ∷ ("UploadFileId", long 0) ∷ [])

abbrev pub uploadfilesucc : Struct
uploadfilesucc = record {
  members = uploadfilesucc_members;
  reads = "UploadFileSize" ∷ "UploadFileId" ∷ [];
}

abbrev pub getappversion_members : Fields
getappversion_members = declare (
    ("AppName", string)
    ∷ ("AppVersion", int 0)
    ∷ ("AppVersionCode", string)
    ∷ ("AppUrl", string)
    ∷ ("AppSize", string)
    ∷ ("UpdateType", int 2)
    ∷ ("UpdateContent", string)
    ∷ ("UrlType", int 1)
    ∷ [])

abbrev pub getappversion : Struct
getappversion = record {
  members = getappversion_members;
  reads =
      "AppName" ∷ "AppVersion" ∷ "AppVersionCode" ∷ "AppUrl" ∷ "AppSize" ∷ "UpdateType"
      ∷ "UpdateContent" ∷ "UrlType" ∷ [];
}
