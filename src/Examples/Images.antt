-- ===== src/Examples/Images.antt =====
-- The structs of the container on small inputs.
use omni_file_system.Prelude.{arith, refl}
use omni_file_system.Types.Images.{IsHeader, IsUser}
use omni_file_system.Examples.Instances.{small_header, root_user}

pub small_header-IsHeader : IsHeader small_header
small_header-IsHeader = record {
  magic = refl;
  format_version = omega arith;
  total_size = omega arith;
  header_size = omega arith;
  block_size = omega arith;
  student_id = refl;
  submission_date = refl;
  config_hash = refl;
  config_timestamp = omega arith;
  user_table_offset = omega arith;
  max_users = omega arith;
  file_state_storage_offset = omega arith;
  change_log_offset = omega arith;
  reserved = refl;
}

pub root_user-IsUser : IsUser root_user
unfolding omni_file_system.Types.role_of
root_user-IsUser = record {
  username = refl;
  password_hash = refl;
  role = omega arith;
  named = refl;
  created_time = omega arith;
  last_login = omega arith;
  is_active = omega arith;
  reserved = refl;
}
