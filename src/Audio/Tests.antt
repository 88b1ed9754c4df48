-- ===== src/Audio/Tests.antt =====
-- apps/data_in_audio on small files.
use linux_dev_framework.Base.{
  length, take, replicate, ℕ, ◌+◌, ◌*◌, ◌%◌, ◌^◌, ◌≡◌, refl, false, none, some, List, [], ◌∷◌, ◌++◌,
}
use linux_dev_framework.Audio.{
  Tone, modulate_byte, server_mode, sync, receive_size, receive_data, Reception, client_mode,
  sync_high, sync_low,
}
use linux_dev_framework.Audio.Files.{heard, client_mode-server, sync-run}

lowest_first : take 4 (modulate_byte 5) ≡ Tone.space ∷ Tone.mark ∷ Tone.space ∷ Tone.mark ∷ []
unfolding modulate_byte
lowest_first = refl

abbrev small : List ℕ
small = 7 ∷ 8 ∷ []

client_mode-server_example :
    client_mode (heard ((85 ∷ []) ++ server_mode small) ++ [])
    ≡ Reception.complete (take (length small % 2 ^ 32) small)
client_mode-server_example = client_mode-server (85 ∷ []) small [] (refl, tt)

-- An error ends the search, and the next results are taken for the size.
error_as_sync : client_mode (none ∷ heard (0 ∷ 0 ∷ 0 ∷ 1 ∷ 9 ∷ [])) ≡ Reception.complete (9 ∷ [])
unfolding client_mode sync receive_size receive_data
error_as_sync = refl

sync-run_example :
    (sync false
        (heard (replicate (2 * 1) sync_high) ++ some sync_high ∷ some sync_low ∷ some 3 ∷ [])
      ≡ some (some 3 ∷ []))
    × (sync false
          (heard (replicate (2 * 1 + 1) sync_high) ++ some sync_high ∷ some sync_low ∷ some 3 ∷ [])
        ≡ sync false (some 3 ∷ []))
sync-run_example = sync-run 1 (some 3 ∷ [])
