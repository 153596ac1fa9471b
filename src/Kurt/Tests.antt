-- ===== src/Kurt/Tests.antt =====
-- Tensors and slices on a concrete runtime: a tensor is its values with their layout.
use kuai.Prelude.{ℕ, ℤ, pos, ◌≡◌, ◌↔◌, refl, none, some, List, [], ◌∷◌, ◌==◌, ==_iff}
use kuai.Kurt.Error.{returned, success}
use kuai.Kurt.Scalar.{i64}
use kuai.Kurt.Tensor.{
  element_count, extents_product, byte_count, check_strides, Element, TensorMetadata, Runtime,
  tensor_from_slice, to_vec,
}
use kuai.Kurt.Shape.{Fits, product, element_count_iff}
use kuai.Kurt.Strides.{column_major, check_strides_iff}
use kuai.Kurt.Copy.{IsWorking, Answers, to_vec-tensor_from_slice}
use kuai.Prelude.{Option}
use kuai.Kurt.Owner.{
  KuObjectKind, Native, Owner, World, Ran, fault, ran, clone, drop, erase, try_from, Op, create,
  clone_of, drop_of, erase_of, try_from_of, run, run_all,
}
use kuai.Kurt.Counts.{Balanced, run_all-Balanced}

abbrev ints : Element
ints = record { Value = ℤ; type_tag = i64; size = 8; default = pos 0 }

record HostTensor : Type 0 where
  device : ℕ
  info : TensorMetadata
  values : List ℤ

-- Devices are numbered; an address is the values that stand there.
abbrev host : Runtime ℤ
host = record {
  Device = ℕ;
  Tensor = HostTensor;
  Stream = ℕ;
  Address = List ℤ;
  Completion = ℕ;
  device_eq = λ a b. a == b;
  create_from_host = λ desc values bytes. (
    success,
    record {
      device = desc.device;
      info = record {
        primitive_type = desc.primitive_type;
        shape = desc.shape;
        strides = column_major 1 desc.shape;
      };
      values = values;
    },
    0,
  );
  wait = λ completion. success;
  get_device = λ tensor. tensor.device;
  get_info = λ tensor. tensor.info;
  get_default_stream = λ device. (success, 0);
  get_data = λ tensor. (success, tensor.values);
  copy_to_host = λ device source bytes stream. (success, source, 0);
}

host-IsWorking : IsWorking ints host
host-IsWorking device shape values bytes all accepted complete = record {
  on_device = (==_iff device device).1 refl;
  info = refl;
  holds = λ answers. cc (answers.has_address, answers.copies);
}

abbrev six : List ℤ
six = pos 1 ∷ pos 2 ∷ pos 3 ∷ pos 4 ∷ pos 5 ∷ pos 6 ∷ []

abbrev six_tensor : HostTensor
six_tensor = record {
  device = 1;
  info = record { primitive_type = i64; shape = 2 ∷ 3 ∷ []; strides = 1 ∷ 2 ∷ [] };
  values = six;
}

six_made : tensor_from_slice ints host 1 (2 ∷ 3 ∷ []) six ≡ returned six_tensor
unfolding tensor_from_slice element_count extents_product byte_count
six_made = refl

six_tensor-Answers : Answers ints host 1 six_tensor 48
six_tensor-Answers = record {
  stream = 0;
  has_stream = refl;
  address = six;
  has_address = refl;
  copied = six;
  completion = 0;
  copies = refl;
  completes = refl;
}

to_vec-tensor_from_slice_example : to_vec ints host 1 six_tensor ≡ returned six
to_vec-tensor_from_slice_example =
    to_vec-tensor_from_slice ints host 1 (2 ∷ 3 ∷ []) six six_tensor host-IsWorking six_made
      λ some_values. six_tensor-Answers

element_count_iff_example :
    (element_count (2 ∷ 3 ∷ []) ≡ returned 6) ↔ (Fits (2 ∷ 3 ∷ []) × (6 ≡ product (2 ∷ 3 ∷ [])))
element_count_iff_example = element_count_iff (2 ∷ 3 ∷ []) 6

check_strides_iff_example :
    (check_strides (2 ∷ 3 ∷ []) (1 ∷ 2 ∷ []) 1 ≡ returned tt)
    ↔ ((1 ∷ 2 ∷ []) ≡ column_major 1 (2 ∷ 3 ∷ []))
check_strides_iff_example = check_strides_iff (2 ∷ 3 ∷ []) (1 ∷ 2 ∷ []) 1 refl

-- No object, and no owner.
abbrev nothing : World
nothing = record { heap = λ k. none; owners = [] }

-- A scalar is made, cloned and erased; the first owner is dropped, and the conversion of the second
-- to a string fails, which drops it.
abbrev scalar_life : List Op
scalar_life =
    create 7 KuObjectKind.scalar
    ∷ clone_of 0
    ∷ erase_of 1
    ∷ drop_of 1
    ∷ try_from_of 0 KuObjectKind.string
    ∷ []

run_all-Balanced_example : (w : World) × (run_all scalar_life nothing ≡ ran w) × Balanced w
run_all-Balanced_example = run_all-Balanced scalar_life nothing λ k. refl

-- What is left of a run: whether object 7 is alive, and how many owners there are.
abbrev left : Ran → Option (Option Native × List Owner)
left fault = none
left (ran w) = some (w.heap 7, w.owners)

scalar_freed : left (run_all scalar_life nothing) ≡ some (none, [])
unfolding run_all run clone drop erase try_from
scalar_freed = refl
