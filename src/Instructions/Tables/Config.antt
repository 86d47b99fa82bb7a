-- ===== src/Instructions/Tables/Config.antt =====
-- The configuration that the server sends:
-- the structs of common/eInstructions.h with the
-- names that common/eInstructions.cpp reads and writes.
use vncc.Base.{[], ◌∷◌, false}
use vncc.Instructions.{
  boolean, string, wstring, array, Fields, Struct, declare, int, long, of_struct,
}

abbrev pub model_info_members : Fields
model_info_members = declare (
    ("ID", long 0)
    ∷ ("ShowOrder", int 0)
    ∷ ("bicon_down", boolean false)
    ∷ ("Name", string)
    ∷ ("IconPath", string)
    ∷ ("localPath", wstring)
    ∷ [])

abbrev pub model_info : Struct
model_info = record {
  members = model_info_members;
  reads = "ID" ∷ "ShowOrder" ∷ "Name" ∷ "IconPath" ∷ [];
}

abbrev pub app_open_page_url_members : Fields
app_open_page_url_members = declare (("PageCode", long 0) ∷ ("OpenUrl", string) ∷ [])

abbrev pub app_open_page_url : Struct
app_open_page_url = record {
  members = app_open_page_url_members;
  reads = "PageCode" ∷ "OpenUrl" ∷ [];
}

abbrev pub switch_config_members : Fields
switch_config_members = declare (("ConfigCode", int 0) ∷ ("IsOpen", int 0) ∷ [])

abbrev pub switch_config : Struct
switch_config = record { members = switch_config_members; reads = "ConfigCode" ∷ "IsOpen" ∷ [] }

abbrev pub param_config_members : Fields
param_config_members = declare (("ConfigCode", int 0) ∷ ("Value", string) ∷ [])

abbrev pub param_config : Struct
param_config = record { members = param_config_members; reads = "ConfigCode" ∷ "Value" ∷ [] }

abbrev pub bitrate_members : Fields
bitrate_members = declare (
    ("defBitrate", int 1500)
    ∷ ("bitrate1", int 1500)
    ∷ ("bitrate2", int 2000)
    ∷ ("bitrate3", int 3000)
    ∷ [])

abbrev pub bitrate : Struct
bitrate = record {
  members = bitrate_members;
  reads = "defBitrate" ∷ "bitrate1" ∷ "bitrate2" ∷ "bitrate3" ∷ [];
}

abbrev pub resolution_sln_members : Fields
resolution_sln_members = declare (
    ("ResolutionId", int 0)
    ∷ ("ResolutionName", string)
    ∷ ("ModelID", int 0)
    ∷ ("Width", int 0)
    ∷ ("Height", int 0)
    ∷ ("MultiMode", int 0)
    ∷ ("HardwareWidth", int 0)
    ∷ ("HardwareHeight", int 0)
    ∷ [])

abbrev pub resolution_sln : Struct
resolution_sln = record {
  members = resolution_sln_members;
  reads =
      "ResolutionId" ∷ "ResolutionName" ∷ "ModelID" ∷ "Width" ∷ "Height" ∷ "MultiMode"
      ∷ "HardwareWidth" ∷ "HardwareHeight" ∷ [];
}

abbrev pub sysinit_info_members : Fields
sysinit_info_members = declare (
    ("ModelInfos", array (of_struct model_info))
    ∷ ("AppOpenPageUrls", array (of_struct app_open_page_url))
    ∷ ("SwitchConfigs", array (of_struct switch_config))
    ∷ ("ParamConfigs", array (of_struct param_config))
    ∷ ("Phoneresolutionconfigs", array (of_struct resolution_sln))
    ∷ ("BackupLimit", int 0)
    ∷ ("UploadFileSizeLimit", int 0)
    ∷ ("StorageConfig", string)
    ∷ [])

abbrev pub sysinit_info : Struct
sysinit_info = record {
  members = sysinit_info_members;
  reads =
      "ModelInfos" ∷ "AppOpenPageUrls" ∷ "SwitchConfigs" ∷ "ParamConfigs" ∷ "BackupLimit"
      ∷ "UploadFileSizeLimit" ∷ "StorageConfig" ∷ "Phoneresolutionconfigs" ∷ [];
}

abbrev pub bitrate_item_members : Fields
bitrate_item_members = declare (("name", string) ∷ ("bitrate", int 1500) ∷ [])

abbrev pub bitrate_item : Struct
bitrate_item = record { members = bitrate_item_members; reads = "name" ∷ "bitrate" ∷ [] }

abbrev pub bitrate_root_members : Fields
bitrate_root_members = declare (("type", string) ∷ ("qList", array (of_struct bitrate_item)) ∷ [])

abbrev pub bitrate_root : Struct
bitrate_root = record { members = bitrate_root_members; reads = "type" ∷ "qList" ∷ [] }

abbrev pub resolution_members : Fields
resolution_members = declare (("width", int 1280) ∷ ("height", int 720) ∷ ("dpi", int 330) ∷ [])

abbrev pub resolution : Struct
resolution = record { members = resolution_members; reads = "width" ∷ "height" ∷ "dpi" ∷ [] }

abbrev pub multi_mode_item_members : Fields
multi_mode_item_members = declare (
    ("width", int 360)
    ∷ ("height", int 640)
    ∷ ("fps", int 10)
    ∷ ("conntype", int 1)
    ∷ ("datatype", int 4)
    ∷ ("bitrate", int 600)
    ∷ ("autobit", boolean false)
    ∷ [])

abbrev pub multi_mode_item : Struct
multi_mode_item = record {
  members = multi_mode_item_members;
  reads = "width" ∷ "height" ∷ "fps" ∷ "conntype" ∷ "datatype" ∷ "bitrate" ∷ "autobit" ∷ [];
}

abbrev pub lang_members : Fields
lang_members = declare (("lang", string) ∷ ("value", string) ∷ [])

abbrev pub lang : Struct
lang = record { members = lang_members; reads = "lang" ∷ "value" ∷ [] }

abbrev pub multi_mode_members : Fields
multi_mode_members =
    declare (("name", array (of_struct lang)) ∷ ("data", of_struct multi_mode_item) ∷ [])

abbrev pub multi_mode : Struct
multi_mode = record { members = multi_mode_members; reads = "name" ∷ "data" ∷ [] }

abbrev pub framerate_members : Fields
framerate_members = declare (("fps", int 30) ∷ [])

abbrev pub framerate : Struct
framerate = record { members = framerate_members; reads = "fps" ∷ [] }
