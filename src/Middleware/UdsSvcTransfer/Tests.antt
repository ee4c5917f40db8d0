-- ===== src/Middleware/UdsSvcTransfer/Tests.antt =====
-- Runs of nx_uds_svc_transfer.c at concrete inputs, and the theorems about it at such inputs. The
-- application is a memory whose writes all succeed.
use nx_c_util.Base.{
  ℕ, zero, suc, ◌+◌, ◌-◌, ◌≤◌, ◌≡◌, ◌⊎◌, refl, arith, true, false, ◌&&◌, none, some, List, [], ◌∷◌,
  ◌++◌, length, get_or, ltb, leb, if◌then◌else◌,
}
use nx_c_util.Middleware.Uds.{request, done, Ctx}
use nx_c_util.Middleware.UdsSvcTransfer.{
  payload_room, Dir, closed, download, upload, Cfg, Xfer, init, WriteFn, ReadFn,
}
use nx_c_util.Middleware.UdsSvcTransfer.Open.{request_download, request_upload, is_closed}
use nx_c_util.Middleware.UdsSvcTransfer.Open.Opening.{Refuses, Opens, request-Opens}
use nx_c_util.Middleware.UdsSvcTransfer.Block.{transfer_data}
use nx_c_util.Middleware.UdsSvcTransfer.Block.Repeat.{transfer_data-repeat}
use nx_c_util.Middleware.UdsSvcTransfer.Block.Image.{Memory, IsLoading}
use nx_c_util.Middleware.UdsSvcTransfer.Block.Memory.{run_data, received, run_data-IsLoading}
use nx_c_util.Middleware.UdsSvcTransfer.Block.Client.{messages, contents, run_data-messages}
use nx_c_util.Middleware.UdsSvcTransfer.Close.{transfer_exit}
use nx_c_util.Middleware.UdsSvcTransfer.Close.Ending.{Ends, transfer_exit-Ends}

abbrev Bytes : Type 0
Bytes = ℕ → ℕ

abbrev store : WriteFn Bytes
store m addr bytes nrc = (
  true,
  (λ i. if leb addr i && ltb i (addr + length bytes) then get_or bytes (i - addr) 0 else m i),
  nrc,
)

abbrev load : Bytes → ℕ → ℕ → List ℕ
load m addr zero = []
load m addr (suc n) = m addr ∷ load m (addr + 1) n

abbrev fetch : ReadFn Bytes
fetch m addr len nrc = (true, m, load m addr len, nrc)

abbrev view : Bytes → ℕ → ℕ
view m i = m i

store-Memory : Memory store view
store-Memory = record {
  stores =
      λ m addr bytes nrc i ok h. let e : addr + i - addr ≡ i = omega arith in rw e (ground arith);
  keeps = λ m addr bytes nrc i h. ground (arith, h);
}

abbrev blank : Bytes
blank i = 0xFF

abbrev cfg : Cfg Bytes
cfg = record {
  srv = some (record { max_req_apdu = 6; max_resp_apdu = 6 });
  open_fn = none;
  write_fn = some store;
  read_fn = some fetch;
  close_fn = none;
  max_block_len = 0;
  bsc_error_nrc = 0x73;
  require_full_size = true;
}

abbrev idle : Xfer Bytes
idle = record {
  srv = record { max_req_apdu = 6; max_resp_apdu = 6 };
  cfg = cfg;
  run = record {
    dir = closed;
    addr = 0;
    size = 0;
    sent = 0;
    block_len = 0;
    bsc_next = 0;
    bsc_last = 0;
    committed = false;
    last_len = 0;
  };
}

-- A region of seven bytes from 0x1000 on, in blocks of at most four.
abbrev live : Dir → Xfer Bytes
live dir = record idle {
  run = record {
    dir = dir;
    addr = 0x1000;
    size = 7;
    sent = 0;
    block_len = 6;
    bsc_next = 1;
    bsc_last = 0;
    committed = false;
    last_len = 0;
  };
}

abbrev ask : List ℕ → Ctx
ask req = record {
  phase = request;
  req = req;
  req_len = length req;
  sid = get_or req 0 0;
  sub = 0;
  has_sub = false;
  ta_type = 0;
  link = 0;
  suppress_pos = false;
  session = 2;
  sec_level = 1;
  out = 0x76 ∷ 0 ∷ 0 ∷ 0 ∷ 0 ∷ 0 ∷ 0 ∷ 0 ∷ [];
  out_cap = 8;
  out_len = 1;
  nrc = 0;
  result = 0;
}

abbrev open_request : Ctx
open_request = ask (0x34 ∷ 0 ∷ 0x12 ∷ 0x10 ∷ 0 ∷ 7 ∷ [])

-- The first block twice, the second once.
abbrev blocks : List (List ℕ × ℕ)
blocks = ((1 ∷ 2 ∷ 3 ∷ 4 ∷ [], 1) ∷ (5 ∷ 6 ∷ 7 ∷ [], 0) ∷ [])

initialised : init cfg ≡ some idle
unfolding init
initialised = refl

opening :
    ((request_download idle open_request blank).xfer ≡ live download)
    × ((request_download idle open_request blank).ctx.out
        ≡ 0x76 ∷ 0x10 ∷ 6 ∷ 0 ∷ 0 ∷ 0 ∷ 0 ∷ 0 ∷ [])
unfolding request_download
opening = (refl, refl)

loading :
    let (xfer, app) = run_data (live download) blank (messages (ask []) 1 blocks) in
    (load app 0x0FFF 9 ≡ 0xFF ∷ 1 ∷ 2 ∷ 3 ∷ 4 ∷ 5 ∷ 6 ∷ 7 ∷ 0xFF ∷ [])
    × (xfer.run.sent ≡ 7)
    × ((transfer_exit xfer (ask (0x37 ∷ [])) app).disposition ≡ done)
unfolding run_data messages transfer_data transfer_exit
loading = (refl, refl, refl)

-- Close to the end of the address space the sum in the check of a block against the region wraps, and
-- an upload reads past the region: of the fifteen bytes that are left, a block of 32 is read.
past_the_end :
    let xfer = record idle {
      run = record {
        dir = upload;
        addr = 0;
        size = 0xFFFFFFFF;
        sent = 0xFFFFFFF0;
        block_len = 34;
        bsc_next = 1;
        bsc_last = 0;
        committed = false;
        last_len = 0;
      };
    } in
    let o = transfer_data xfer (record (ask (0x36 ∷ 1 ∷ [])) { out_cap = 40 }) blank in
    (o.disposition ≡ done) × (o.ctx.out_len ≡ 34) × (o.xfer.run.sent ≡ 0x10)
unfolding transfer_data
past_the_end = (refl, refl, refl)

fresh-IsLoading : IsLoading store view blank [] (live download) blank
fresh-IsLoading = record {
  down = refl;
  writes = refl;
  region = omega arith;
  block = omega arith;
  reached = refl;
  bounded = omega arith;
  inside = λ i h. absurd (omega arith);
  outside = λ i h. refl;
}

-- A block, the same again, one out of turn, one too long, and the next.
abbrev traffic : List Ctx
traffic =
    ask (0x36 ∷ 1 ∷ 9 ∷ 8 ∷ [])
    ∷ ask (0x36 ∷ 1 ∷ 9 ∷ 8 ∷ [])
    ∷ ask (0x36 ∷ 7 ∷ 9 ∷ [])
    ∷ ask (0x36 ∷ 2 ∷ 1 ∷ 2 ∷ 3 ∷ 4 ∷ 5 ∷ [])
    ∷ ask (0x36 ∷ 2 ∷ 7 ∷ [])
    ∷ []

run_data-IsLoading_example :
    let (xfer, app) = run_data (live download) blank traffic in
    IsLoading store view blank ([] ++ received (live download) blank traffic) xfer app
run_data-IsLoading_example =
    run_data-IsLoading store view blank [] (live download) blank traffic store-Memory (ground arith)
      fresh-IsLoading

run_data-messages_example :
    let (xfer, app) = run_data (live download) blank (messages (ask []) 1 blocks) in
    IsLoading store view blank (1 ∷ 2 ∷ 3 ∷ 4 ∷ 5 ∷ 6 ∷ 7 ∷ []) xfer app
unfolding contents payload_room
run_data-messages_example =
    run_data-messages store view store-Memory (λ m addr bytes nrc. refl) blank [] (live download)
      blank (ask []) 1 blocks fresh-IsLoading
      (record {
        next = refl;
        byte = omega arith;
        last = λ h. ground arith;
        last_byte = omega arith;
      })
      (ground arith) (omega arith)

transfer_data-repeat_example :
    let o = transfer_data (live upload) (ask (0x36 ∷ 1 ∷ [])) blank in
    transfer_data o.xfer (ask (0x36 ∷ 1 ∷ [])) o.app ≡ o
unfolding transfer_data
transfer_data-repeat_example =
    transfer_data-repeat (live upload) (ask (0x36 ∷ 1 ∷ [])) blank (λ app addr len nrc. refl)
      (omega arith) (omega arith) refl refl

request-Opens_example :
    let d = request_download idle open_request blank in
    let u = request_upload idle open_request blank in
    (Refuses idle open_request download d ⊎ Opens idle open_request download d)
    × (Refuses idle open_request upload u ⊎ Opens idle open_request upload u)
request-Opens_example =
    request-Opens idle open_request blank refl (omega arith) (omega arith) (omega arith)

-- All seven bytes have been sent.
abbrev complete : Xfer Bytes
complete = record (live download) {
  run = record (live download).run { sent = 7; bsc_next = 3; bsc_last = 2; committed = true };
}

transfer_exit-Ends_example :
    let o = transfer_exit complete (ask (0x37 ∷ [])) blank in
    Ends complete (ask (0x37 ∷ [])) o
    × (complete.cfg.close_fn ≡ none
        → is_closed complete.run.dir ≡ false
        → complete.run.sent ≡ complete.run.size
        → 1 ≤ (ask (0x37 ∷ [])).out_cap
        → o.disposition ≡ done)
transfer_exit-Ends_example = transfer_exit-Ends complete (ask (0x37 ∷ [])) blank refl
