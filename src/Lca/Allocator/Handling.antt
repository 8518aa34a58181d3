-- ===== src/Lca/Allocator/Handling.antt =====
-- What the allocator's handler of lca/lca-allocator.go does with each request, and the addresses that
-- its replies spell.
use go_code_goes_here.Prelude.{
  ℕ, ◌<◌, ◌≡◌, refl, ◌↔◌, Bytes, codes, false, List, [], ◌∷◌, ◌++◌, none, some, arith, store, same,
  same_refl, if◌then◌else◌, All, ◌⊎◌, inl, inr, Option-cases, append_assoc,
}
use go_code_goes_here.World.{Result-cases, ok}
use go_code_goes_here.Strconv.{itoa}
use go_code_goes_here.Strconv.Laws.{itoa-IsDigit, length-itoa_pos, length-itoa_port}
use go_code_goes_here.Lca.Wire.{write, read, start_program, err_unrecognized, err_alloc_fail}
use go_code_goes_here.Lca.Address.{IsNumber, IsAddress}
use go_code_goes_here.Lca.Machine.{Machine}
use go_code_goes_here.Lca.Allocator.{
  Services, returned, panicked, is_regexp_space, submatches, launch, cmd_start_program, respond,
  answer, handle,
}

abbrev pub HasNoSpace : Bytes → Type 0
HasNoSpace = All (λ c. is_regexp_space c ≡ false)

submatches-append :
    (command rest : Bytes)
    → HasNoSpace command
    → submatches (command ++ b' ' ∷ rest) ≡ some (command, rest)
unfolding submatches
submatches-append [] rest h = refl
submatches-append (c ∷ command) rest h = ground (arith, h.0, submatches-append command rest h.1)

submatches-eq-none : (s : Bytes) → HasNoSpace s → submatches s ≡ none
unfolding submatches
submatches-eq-none [] h = refl
submatches-eq-none (c ∷ s) h = ground (arith, h.0, submatches-eq-none s h.1)

HasNoSpace-of_none : (s : Bytes) → submatches s ≡ none → HasNoSpace s
unfolding submatches
HasNoSpace-of_none [] h = tt
HasNoSpace-of_none (c ∷ s) h = (ground arith, HasNoSpace-of_none s (ground arith))

start_program-HasNoSpace : HasNoSpace start_program
unfolding is_regexp_space
start_program-HasNoSpace = ground arith

module _ (m : Machine) (bootstraps : List Bytes) (s_psk : Bytes) where
  open m use {
    State, Stream, world, pull_image, get_ip_address, get_free_port, run_container, close_stream,
  }

  respond-returned :
      (command image_name : Bytes) (services : Services) (stream : Stream) (s : State)
      → (respond m bootstraps s_psk command image_name services stream s).0 ≡ returned
  unfolding respond
  respond-returned command image_name services stream s = ground arith

  -- On a line that it has read, the handler panics exactly if the line holds no white space.
  pub handle_panics :
      (services : Services) (stream : Stream) (s : State) (str : Bytes)
      → (read world stream s).0 ≡ ok str
      → ((handle m bootstraps s_psk services stream s).0 ≡ panicked) ↔ HasNoSpace str
  unfolding handle answer
  handle_panics services stream s str r = (
    λ e. elim (Option-cases (submatches str)) [
      | inl q ↦ HasNoSpace-of_none str q
      | inr ((command, image_name), q) ↦ absurd (
          ground
            (arith, respond-returned command image_name services stream (read world stream s).1))
    ],
    λ h. ground (arith, submatches-eq-none str h),
  )

  -- The request that the manager's requestAlloc writes, once read, starts the image that it names,
  -- whatever the name is; the handler then writes the error text, if there is one, closes the stream and
  -- returns.
  pub handle_start :
      (services : Services) (stream : Stream) (s : State) (image_name : Bytes)
      → (read world stream s).0 ≡ ok (start_program ++ codes " " ++ image_name)
      → let started =
          cmd_start_program m bootstraps s_psk image_name services stream (read world stream s).1 in
        handle m bootstraps s_psk services stream s ≡ (
          if same started.0 [] then (returned, started.1, close_stream stream started.2) else (
            returned,
            started.1,
            close_stream stream (write world stream started.0 started.2).1,
          ))
  unfolding handle answer respond
  handle_start services stream s image_name r =
      let q = submatches-append start_program image_name start_program-HasNoSpace in
      ground (arith, q, same_refl start_program)

  -- Any other command is answered by the text for unrecognized commands, and starts nothing; the stream is
  -- closed.
  pub handle_unrecognized :
      (services : Services) (stream : Stream) (s : State) (command rest : Bytes)
      → (read world stream s).0 ≡ ok (command ++ b' ' ∷ rest)
      → HasNoSpace command
      → same command start_program ≡ false
      → handle m bootstraps s_psk services stream s ≡ (
        returned,
        services,
        close_stream stream (write world stream err_unrecognized (read world stream s).1).1,
      )
  unfolding handle answer respond
  handle_unrecognized services stream s command rest r h ne =
      ground (arith, submatches-append command rest h)

  -- cmdStartProgram records a service exactly if it reports no error; otherwise it reports that the
  -- allocation failed, and the map is as it was.
  pub cmd_start_program_records :
      (image_name : Bytes) (services : Services) (stream : Stream) (s : State)
      → let (text, services', s') =
          cmd_start_program m bootstraps s_psk image_name services stream s in
        ((text ≡ err_alloc_fail) × (services' ≡ services))
        ⊎ ((text ≡ []) × ((port : Bytes) × (cid : Bytes) × (services' ≡ store port cid services)))
  unfolding cmd_start_program
  cmd_start_program_records image_name services stream s =
      elim (Result-cases (launch m bootstraps s_psk image_name stream s).0) [
        | inl ((port, cid), e) ↦ rw (e, cmd_start_program) (inr (refl, (port, cid, refl)))
        | inr (e, q) ↦ rw (q, cmd_start_program) (inl (refl, refl))
      ]

-- Four numbers of one to three digits with dots between them.
pub record IsQuad (ip : Bytes) : Type 0 where
  pub a : Bytes
  pub b : Bytes
  pub c : Bytes
  pub d : Bytes
  pub spelled : ip ≡ a ++ codes "." ++ b ++ codes "." ++ c ++ codes "." ++ d
  pub a_number : IsNumber 3 a
  pub b_number : IsNumber 3 b
  pub c_number : IsNumber 3 c
  pub d_number : IsNumber 3 d

pub quad_address :
    (ip : Bytes) (port : ℕ) → IsQuad ip → port < 65536 → IsAddress (ip ++ codes ":" ++ itoa port)
quad_address ip port q h = record {
  a = q.a;
  b = q.b;
  c = q.c;
  d = q.d;
  port = itoa port;
  spelled = rw q.spelled (simp append_assoc);
  a_number = q.a_number;
  b_number = q.b_number;
  c_number = q.c_number;
  d_number = q.d_number;
  port_number = (itoa-IsDigit port, length-itoa_pos port, length-itoa_port port h);
}
