-- ===== src/Examples/Images.antt =====
-- The image of a device of 2056 blocks.
use test_vsfs.Prelude.{◌≡◌, [], ◌∷◌, arith}
use test_vsfs.Memory.{Memory}
use test_vsfs.Format.{write_superblock, mkfs, write_data_region, directory}
use test_vsfs.Format.Regions.{IsLaidOut, IsImage, write_superblock-IsLaidOut, mkfs-IsImage}

write_superblock-IsLaidOut_example : IsLaidOut 2056 (write_superblock 8421376)
write_superblock-IsLaidOut_example = write_superblock-IsLaidOut 8421376 (omega arith) (omega arith)

mkfs-IsImage_example :
    (root : Memory) × (write_data_region (λ _. 0) ≡ directory root ∷ [])
    × IsImage (write_superblock 8421376) (mkfs 8421376 (λ _. 0)) root
mkfs-IsImage_example = mkfs-IsImage 8421376 (λ _. 0) (omega arith) (omega arith)
