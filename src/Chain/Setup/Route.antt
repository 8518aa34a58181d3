-- ===== src/Chain/Setup/Route.antt =====
-- How a proxy finds its place in a chain specification, and the acknowledgement that travels back, in
-- l4-proxy/chain-setup.go.
use go_code_goes_here.Prelude.{
  ◌≡◌, refl, ap, sym, ◌∙◌, arith, Bytes, codes, true, false, Bool-cases, inl, inr, List, [], ◌∷◌,
  ◌++◌, same, same_refl, has_prefix-append, join, if◌then◌else◌, All, append-nil,
}
use go_code_goes_here.Chain.Serving.{is_protocol}
use go_code_goes_here.Chain.Setup.{scan_start, scan, relay, rev_chain_msg_prefix}

-- The services of a chain specification.
abbrev pub services_of : List Bytes → List Bytes
services_of [] = []
services_of (token ∷ rest) =
    if is_protocol token then services_of rest else token ∷ services_of rest

-- The last protocol of a specification, and one for a specification that names none.
abbrev pub last_protocol : Bytes → List Bytes → Bytes
last_protocol proto [] = proto
last_protocol proto (token ∷ rest) = last_protocol (if is_protocol token then token else proto) rest

abbrev pub first_of : List Bytes → Bytes
first_of [] = []
first_of (s ∷ rest) = s

-- A specification that does not name a service.
abbrev pub DoesNotName : Bytes → List Bytes → Type 0
DoesNotName service = All (λ token. same token service ≡ false)

scan-before :
    (service : Bytes) (pre rest : List Bytes) (proto : Bytes)
    → DoesNotName service pre
    → scan service (pre ++ rest) (record scan_start { tp_proto = proto })
      ≡ scan service rest (record scan_start { tp_proto = last_protocol proto pre })
unfolding scan
scan-before service [] rest proto h = refl
scan-before service (token ∷ pre) rest proto h = elim (Bool-cases (is_protocol token)) [
  | inl e ↦ rw (e, scan) (scan-before service pre rest token h.1)
  | inr e ↦ rw (e, h.0, scan) (scan-before service pre rest proto h.1)
]

scan-after :
    (service : Bytes) (post : List Bytes) (proto this : Bytes)
    → DoesNotName service post
    → let v =
        scan service post
          (record { tp_proto = proto; tp_proto_this = this; next_serv = []; found_me = true }) in
      (v.found_me ≡ true) × ((v.tp_proto_this ≡ this) × (v.next_serv ≡ first_of (services_of post)))
unfolding scan
scan-after service [] proto this h = (refl, (refl, refl))
scan-after service (token ∷ post) proto this h = elim (Bool-cases (is_protocol token)) [
  | inl e ↦ rw (e, scan) (scan-after service post token this h.1)
  | inr e ↦ rw (e, h.0, scan) (refl, (refl, refl))
]

-- A proxy whose service, which is no protocol's name, the chain names once finds itself; its protocol is
-- the last one named before it, and its next service is the first one named behind it, if there is one.
pub scan_finds :
    (service : Bytes) (pre post : List Bytes)
    → is_protocol service ≡ false
    → DoesNotName service pre
    → DoesNotName service post
    → let v = scan service (pre ++ service ∷ post) scan_start in
      (v.found_me ≡ true)
      × ((v.tp_proto_this ≡ last_protocol [] pre) × (v.next_serv ≡ first_of (services_of post)))
unfolding scan
scan_finds service pre post p h k = rw (scan-before service pre (service ∷ post) [] h) (
    rw (p, same_refl service, scan)
      (scan-after service post (last_protocol [] pre) (last_protocol [] pre) k))

-- A proxy whose service the chain does not name does not find itself, and takes no next service.
pub scan_misses :
    (service : Bytes) (spec : List Bytes)
    → DoesNotName service spec
    → ((scan service spec scan_start).found_me ≡ false)
      × ((scan service spec scan_start).next_serv ≡ [])
unfolding scan
scan_misses service spec h =
    let e : scan service spec scan_start ≡ record scan_start { tp_proto = last_protocol [] spec } =
      ap (λ t. scan service t scan_start) (sym (append-nil spec))
      ∙ scan-before service spec [] [] h in
    rw e (refl, refl)

-- What the first proxy of the chain gets, the services given from the last to the first.
abbrev pub relayed : Bytes → List Bytes → Bytes
relayed msg [] = msg
relayed msg (service ∷ rest) = relayed (relay service msg) rest

pub relay-append :
    (service text : Bytes)
    → relay service (rev_chain_msg_prefix ++ text)
      ≡ rev_chain_msg_prefix ++ (text ++ codes " " ++ service)
unfolding relay
relay-append service text = ground (arith, has_prefix-append rev_chain_msg_prefix text)

-- The acknowledgement that the last service sends, relayed by the services before it, one after
-- another, lists the services of the chain from the last to the first, with spaces between them.
pub relayed-join :
    (last : Bytes) (services : List Bytes)
    → relayed (rev_chain_msg_prefix ++ last) services
      ≡ rev_chain_msg_prefix ++ join (last ∷ services) (codes " ")
unfolding join
relayed-join last [] = refl
relayed-join last (service ∷ rest) =
    rw (relay-append service last) (relayed-join (last ++ codes " " ++ service) rest)
