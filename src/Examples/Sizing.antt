-- ===== src/Examples/Sizing.antt =====
-- The sizing of `fs_format` at the default configuration and at one that it does not survive.
use omni_file_system.Format.Cycle.{format_layout_hangs}
use omni_file_system.Format.Converge.{format_layout_returns}
use omni_file_system.Format.Init.{init_blocks_end, init_blocks_end-le}
use omni_file_system.Format.Fit.{IsFit, format_layout-IsFit}
use omni_file_system.Format.{
  Layout, SimpleConfig, format_layout, init_num_blocks, offsets, settle, available_for_blocks,
  laid_out, out_of_fuel,
}
use omni_file_system.Prelude.{arith, ◌≡◌, ◌≤◌, ◌↔◌, refl, ◌+◌, ◌/◌, ◌%◌}

-- default.uconf
abbrev default_uconf : SimpleConfig
default_uconf = record {
  total_size = 104857600;
  header_size = 512;
  block_size = 4096;
  max_files = 1000;
  max_users = 50;
}

default_layout :
    format_layout 10 default_uconf
    ≡ laid_out (record {
      num_blocks = 25579;
      user_table_offset = 512;
      metadata_offset = 6912;
      bitmap_offset = 78912;
      blocks_offset = 82110;
    })
unfolding format_layout settle available_for_blocks
default_layout = refl

format_layout-IsFit_example : IsFit default_uconf (offsets default_uconf 25579)
format_layout-IsFit_example =
    format_layout-IsFit 10 default_uconf (offsets default_uconf 25579) (omega arith) default_layout

format_layout_returns_example : (l : Layout) × (format_layout 104857602 default_uconf ≡ laid_out l)
format_layout_returns_example =
    format_layout_returns default_uconf (omega arith)
      (unfold available_for_blocks in λ m e. absurd (omega arith)) 104857602 (omega arith)

-- One user, one file and room for a single block of 128 bytes.
abbrev one_block : SimpleConfig
one_block = record {
  total_size = 840;
  header_size = 512;
  block_size = 128;
  max_files = 1;
  max_users = 1;
}

format_layout_hangs_example : format_layout 1000 one_block ≡ out_of_fuel
format_layout_hangs_example =
    format_layout_hangs one_block 0 (omega arith) (unfold available_for_blocks in refl) 1000

init_blocks_end-le_example : (init_blocks_end default_uconf 104857600 ≤ 104857600) ↔ (
    (available_for_blocks default_uconf / 4096 + 7) / 8 ≤ available_for_blocks default_uconf % 4096)
init_blocks_end-le_example = init_blocks_end-le default_uconf 104857600 (omega arith) (omega arith)

-- With the default configuration the last block of `fs_init` ends 190 bytes behind the container.
default_overrun : init_blocks_end default_uconf 104857600 ≡ 104857600 + 190
unfolding init_blocks_end init_num_blocks available_for_blocks
default_overrun = refl
