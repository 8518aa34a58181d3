-- ===== src/Lca/Wire.antt =====
-- lca/lca-common.go: the commands and the error replies, and one message to a line.
use go_code_goes_here.Prelude.{ℕ, Bytes, codes, [], ◌∷◌, ◌++◌, Option, trim_suffix}
use go_code_goes_here.World.{World, Error, Result, ok, err}

abbrev pub newline : ℕ
newline = b'\n'

abbrev pub start_program : Bytes
start_program = codes "start-program"

abbrev pub err_unrecognized : Bytes
err_unrecognized = codes "Error: unrecognized command"

abbrev pub err_alloc_fail : Bytes
err_alloc_fail = codes "Error: allocation failed"

abbrev pub err_dead_program : Bytes
err_dead_program = codes "Error: program non-responsive"

-- LCAManagerRequestProtID, LCAAllocatorProtocolID and LCAAllocatorRendezvous
abbrev pub manager_request_prot_id : Bytes
manager_request_prot_id = codes "/LCAManagerRequest/1.0"

abbrev pub allocator_protocol_id : Bytes
allocator_protocol_id = codes "/LCAAllocator/1.0"

abbrev pub allocator_rendezvous : Bytes
allocator_rendezvous = codes "QmQJRHSU69L6W2SwNiKekpUHbxHPXi57tWGRWJaD5NsRxS"

module _ (w : World) where
  open w use {State, Stream, write_string, read_string}

  -- write: the error of the flush is dropped
  unfoldable pub write : Stream → Bytes → State → Option Error × State
  write rw msg s = write_string rw (msg ++ newline ∷ []) s

  -- read
  unfoldable pub read : Stream → State → Result Bytes × State
  read rw s =
      let (r, s') = read_string rw s in
      elim r [ err e ↦ (err e, s') | ok str ↦ (ok (trim_suffix str newline), s') ]
