-- ===== src/Settings/Errors.antt =====
-- The messages of errors: web/src/settings/errors.ts.
use dbtabase_workbench.Common.{Option, none, some, Text, text, ◌===◌, if◌then◌else◌}

-- An error of the server, with its code, another error, or something else that was thrown.
pub data SettingsError : Type 0 where
  auth_error : Text → Text → SettingsError
  plain_error : Text → SettingsError
  unknown_error : SettingsError

unfoldable pub code_message : Text → Option Text
code_message code =
    if code === text "last_team_admin"
    then some (text "该团队至少需要保留一名管理员。请先指定其他成员为管理员，再执行此操作。")
    else if code === text "last_system_admin"
    then some (text "系统至少需要保留一名未禁用的管理员。请先提升其他用户或启用其他管理员账号。")
    else if code === text "forbidden"
    then some (text "你没有权限执行此操作。")
    else if code === text "conflict"
    then some (text "操作发生冲突，可能是记录已存在或状态不允许变更。")
    else if code === text "invalid"
    then some (text "提交的数据无效，请检查表单后重试。")
    else if code === text "not_found"
    then some (text "目标记录不存在，可能已被删除。")
    else none

unfoldable pub settings_error_message : SettingsError → Text
settings_error_message (auth_error code message) = elim (code_message code) [
  | none ↦ message
  | some known ↦ known
]
settings_error_message (plain_error message) = message
settings_error_message unknown_error = text "请求失败"
