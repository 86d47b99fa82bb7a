-- ===== src/Instructions/Tables/Files.antt =====
-- Files, apps and patches:
-- the structs of common/eInstructions.h with the
-- names that common/eInstructions.cpp reads and writes.
use Prim.Native.String.{String}
use vncc.Base.{List, [], ◌∷◌, false}
use vncc.Instructions.{
  boolean, real, string, wstring, pointer, array, Fields, Struct, declare, int, long, of_struct,
}
use vncc.Instructions.Tables.Account.{pages}

abbrev pub signfilepath_members : Fields
signfilepath_members = declare (
    ("FileExists", boolean false)
    ∷ ("FilePath", string)
    ∷ ("ExpireSecond", int 0)
    ∷ ("Key", string)
    ∷ ("Md5", string)
    ∷ ("fullpath", string)
    ∷ ("wfullpath", wstring)
    ∷ ("FileSize", real)
    ∷ ("FileType", string)
    ∷ ("FileClassify", int 2)
    ∷ ("arg", pointer)
    ∷ ("disable", boolean false)
    ∷ ("packagename", string)
    ∷ ("versioncode", string)
    ∷ [])

abbrev pub signfilepath : Struct
signfilepath = record {
  members = signfilepath_members;
  reads = "FileExists" ∷ "FilePath" ∷ "ExpireSecond" ∷ "Key" ∷ "Md5" ∷ [];
}

abbrev pub signfilepaths_members : Fields
signfilepaths_members = declare (("SignFilePaths", array (of_struct signfilepath)) ∷ [])

abbrev pub signfilepaths : Struct
signfilepaths = record { members = signfilepaths_members; reads = "SignFilePaths" ∷ [] }

abbrev pub fileinfo_members : Fields
fileinfo_members = declare (
    ("UserFileID", long 0)
    ∷ ("FileName", string)
    ∷ ("FilePth", string)
    ∷ ("FileDomain", string)
    ∷ ("FileMd5", string)
    ∷ ("FileSize", real)
    ∷ ("FileType", string)
    ∷ ("FileDesc", string)
    ∷ ("IsInstall", boolean false)
    ∷ ("FileExtendJson", string)
    ∷ ("FileClassify", int 0)
    ∷ ("MobileDeviceID", long 0)
    ∷ ("UploadChannel", int 0)
    ∷ [])

abbrev pub fileinfo : Struct
fileinfo = record {
  members = fileinfo_members;
  reads =
      "UserFileID" ∷ "FileName" ∷ "FilePth" ∷ "FileDomain" ∷ "FileMd5" ∷ "FileSize" ∷ "FileType"
      ∷ "FileDesc" ∷ "IsInstall" ∷ "FileExtendJson" ∷ "FileClassify" ∷ "MobileDeviceID"
      ∷ "UploadChannel" ∷ [];
}

abbrev pub userfiles_members : Fields
userfiles_members =
    declare (("FileDatas", array (of_struct fileinfo)) ∷ ("Page", of_struct pages) ∷ [])

abbrev pub userfiles : Struct
userfiles = record { members = userfiles_members; reads = "FileDatas" ∷ "Page" ∷ [] }

abbrev pub appinfo_members : Fields
appinfo_members =
    declare (
      ("icon", string)
      ∷ ("packageName", string)
      ∷ ("name", string)
      ∷ ("isRoot", boolean false)
      ∷ [])

abbrev pub appinfo : Struct
appinfo = record {
  members = appinfo_members;
  reads = "icon" ∷ "packageName" ∷ "isRoot" ∷ "name" ∷ [];
}

abbrev pub apps_members : Fields
apps_members = declare (("data", array (of_struct appinfo)) ∷ [])

abbrev pub apps : Struct
apps = record { members = apps_members; reads = "data" ∷ [] }

abbrev pub areaserverinfo_members : Fields
areaserverinfo_members = declare (
    ("AreaID", long 0)
    ∷ ("AreaName", string)
    ∷ ("ICON", string)
    ∷ ("FileMd5", string)
    ∷ ("AppDownUrl", string)
    ∷ ("AppSize", real)
    ∷ ("AppVersion", string)
    ∷ ("PackageName", string)
    ∷ ("InnerVersion", long 0)
    ∷ [])

abbrev pub areaserverinfo : Struct
areaserverinfo = record {
  members = areaserverinfo_members;
  reads =
      "AreaID" ∷ "AreaName" ∷ "ICON" ∷ "FileMd5" ∷ "AppDownUrl" ∷ "AppSize" ∷ "AppVersion"
      ∷ "PackageName" ∷ "InnerVersion" ∷ [];
}

abbrev pub areaserverinfo_writes : List String
areaserverinfo_writes =
    "AreaID" ∷ "AreaName" ∷ "ICON" ∷ "FileMd5" ∷ "AppDownUrl" ∷ "AppSize" ∷ "AppVersion"
    ∷ "PackageName" ∷ "InnerVersion" ∷ []

abbrev pub marketappinfo_members : Fields
marketappinfo_members = declare (
    ("ID", long 0)
    ∷ ("Name", string)
    ∷ ("ICON", string)
    ∷ ("AppType", int 0)
    ∷ ("Areas", array (of_struct areaserverinfo))
    ∷ [])

abbrev pub marketappinfo : Struct
marketappinfo = record {
  members = marketappinfo_members;
  reads = "ID" ∷ "Name" ∷ "ICON" ∷ "AppType" ∷ "Areas" ∷ [];
}

abbrev pub marketapp_members : Fields
marketapp_members =
    declare (("AppInfos", array (of_struct marketappinfo)) ∷ ("Page", of_struct pages) ∷ [])

abbrev pub marketapp : Struct
marketapp = record { members = marketapp_members; reads = "AppInfos" ∷ "Page" ∷ [] }

abbrev pub error_patch_members : Fields
error_patch_members = declare (("ErrorPatchGUIDs", array (string)) ∷ [])

abbrev pub error_patch : Struct
error_patch = record { members = error_patch_members; reads = "ErrorPatchGUIDs" ∷ [] }

abbrev pub patch_task_guid_members : Fields
patch_task_guid_members = declare (("BatchGUID", string) ∷ [])

abbrev pub patch_task_guid : Struct
patch_task_guid = record { members = patch_task_guid_members; reads = "BatchGUID" ∷ [] }

abbrev pub patch_result_item_members : Fields
patch_result_item_members =
    declare (("MobileDeviceID", long 0) ∷ ("PStatus", int 0) ∷ ("DeviceOrderID", long 0) ∷ [])

abbrev pub patch_result_item : Struct
patch_result_item = record {
  members = patch_result_item_members;
  reads = "MobileDeviceID" ∷ "PStatus" ∷ "DeviceOrderID" ∷ [];
}

abbrev pub patch_result_array_members : Fields
patch_result_array_members = declare (("InstallResult", array (of_struct patch_result_item)) ∷ [])

abbrev pub patch_result_array : Struct
patch_result_array = record { members = patch_result_array_members; reads = "InstallResult" ∷ [] }
