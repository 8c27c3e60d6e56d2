-- ===== src/Examples/Listings.antt =====
-- Directory blocks and paths on the small container.
use omni_file_system.Prelude.{ℕ, ◌≡◌, refl, arith, [], ◌∷◌}
use omni_file_system.Prelude.Bytes.{codes}
use omni_file_system.HashMap
use omni_file_system.HashMap.View.{new-refines}
use omni_file_system.Stream.{read_at}
use omni_file_system.Directory.{words_image}
use omni_file_system.Prelude.Words.{to_le}
use omni_file_system.Directory.Block.{Lists}
use omni_file_system.Directory.Listing.{IsMounted, Placed}
use omni_file_system.Paths.{split_path_tokens, join_tokens, rebuild_path_index}
use omni_file_system.Paths.Tokens.{split_path_tokens-join_tokens}
use omni_file_system.Paths.Index.{LastUpTo, find-rebuild_path_index}
use omni_file_system.Examples.Instances.{fresh, blank-IsSound, first_byte}

pub fresh-IsMounted : IsMounted fresh
fresh-IsMounted = record { sound = blank-IsSound; room = omega arith }

pub root-Placed : Placed fresh 1
root-Placed = omega arith

pub root-Lists : Lists root-Placed fresh-IsMounted.room fresh.file []
unfolding to_le
root-Lists = record {
  indices = tt;
  fit = omega arith;
  inside = omega arith;
  image = unfold read_at words_image in refl;
}

split_path_tokens-join_tokens_example :
    split_path_tokens (join_tokens (codes "docs" ∷ codes "a.txt" ∷ []))
    ≡ codes "docs" ∷ codes "a.txt" ∷ []
split_path_tokens-join_tokens_example =
    split_path_tokens-join_tokens (codes "docs" ∷ codes "a.txt" ∷ []) (omega arith)

find-rebuild_path_index_example :
    LastUpTo fresh.meta_entries 4
      (codes "/")
      (HashMap.find (rebuild_path_index fresh).path_index (codes "/"))
find-rebuild_path_index_example =
    find-rebuild_path_index fresh (codes "/") (new-refines {V = ℕ} 3 first_byte (omega arith)).0
