-- ===== src/Worker/TransferClient/Tests.antt =====
-- internal/worker/transfer_client.go: two chunks through the proxy.
use dockation.Prelude.{ℕ, ◌≡◌, refl, true, false, some, [], ◌∷◌, map}
use dockation.Proto.Transfers.{VolumeChunk}
use dockation.Master.Proxy.Channels.{relaying, waiting, running, ProxyChannel}
use dockation.Worker.TransferClient.{
  ProxyTransferClient, ProxyStream, opens, refuses, open_stream, close_client,
  new_proxy_transfer_client,
}
use dockation.Worker.TransferClient.Acknowledged.{
  exchanges, all_to_target, success_at, chunks_acknowledged,
}

abbrev chunk : ℕ → VolumeChunk
chunk n = record {
  volume_id = "v";
  offset = n;
  contents = n ∷ [];
  checksum = "";
  total_size = 0;
  is_final = false;
}

abbrev client : ProxyTransferClient
client = record { migration_id = "mig-1"; worker_id = ""; closed = false }

closed_refuses :
    open_stream (close_client (new_proxy_transfer_client "mig-1")).0
    ≡ refuses "proxy client is closed"
unfolding open_stream close_client new_proxy_transfer_client
closed_refuses = refl

-- Both workers have joined.
abbrev channel : ProxyChannel
channel = record {
  migration_id = "mig-1";
  source_stream = some 1;
  target_stream = some 2;
  source_ready = true;
  target_ready = true;
  bytes_relayed = 0;
  cancelled = false;
  source_handler = relaying;
  target_handler = waiting;
  relay = running true true;
}

chunks_acknowledged_example :
    (s : ProxyStream) × (open_stream client ≡ opens s)
    × (let (answers, ch) = exchanges client s channel (chunk 0 ∷ chunk 1 ∷ []) in
        (answers ≡ map success_at (chunk 0 ∷ chunk 1 ∷ []))
        × (ch.bytes_relayed ≡ 2)
        × (ch.cancelled ≡ false)
        × ((all_to_target ch (close_client client).1).cancelled ≡ true))
chunks_acknowledged_example =
    chunks_acknowledged client channel (chunk 0 ∷ chunk 1 ∷ []) refl refl refl
