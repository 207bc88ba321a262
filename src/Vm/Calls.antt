-- ===== src/Vm/Calls.antt =====
-- cova/vm.go: frames and calls. `enterScriptFunction` checks the callee's descriptor, clears its
-- frame, moves the arguments from the stack into it and sets the counter.
pub mod Laws
use ccova.Prelude.{
  ℕ, zero, suc, ◌+◌, ◌-◌, ◌%◌, ◌^◌, Bool, true, false, ◌&&◌, ◌||◌, Option, none, some, ltb, leb,
  ◌==◌, if◌then◌else◌, length, get_or, get_elem?, set, replicate,
}
use ccova.Prelude.Int.{pos}
use ccova.Status.{VmStatus, minus_one}
use ccova.Kind.{ValueKind, size, kind_number}
use ccova.Segment.{overwrite, truncate_to}
use ccova.Address.{segment_frame, segment_stack}
use ccova.Program.{LinkedProgram, ScriptFunctionDescriptor}
use ccova.Vm.State.{
  Vm, CallFrame, no_frame, M, pure, ◌>>=◌, ◌>>◌, refuse, gets, modify, fault, lift, stack,
  set_segment,
}

-- `currentFrame`
unfoldable pub current_frame : M CallFrame
current_frame = do
  top ← gets (λ vm. vm.call_frame_top)
  frames ← gets (λ vm. vm.call_frames)
  if top == 0 then refuse VmStatus.invalid_lifecycle else pure (get_or frames (top - 1) no_frame)

-- One parameter of the loop that adds up the bytes of the arguments.
unfoldable pub check_param : ℕ → ℕ → ℕ → ValueKind → ℕ → M ℕ
check_param frame_byte_size index total kind offset =
    let n = size kind in
    if n == 0
    then fault VmStatus.invalid_parameter (pos index) minus_one (pos (kind_number kind))
    else if ltb frame_byte_size n || ltb (frame_byte_size - n) offset
    then fault VmStatus.invalid_parameter (pos index) (pos frame_byte_size)
        (pos ((offset + n) % 2 ^ 32))
    else if ltb (2 ^ 32 - 1 - n) total
    then fault VmStatus.invalid_parameter (pos index) minus_one minus_one
    else pure (total + n)

-- The loop, over the parameters that are left.
unfoldable pub argument_bytes : LinkedProgram → ℕ → ℕ → ℕ → ℕ → ℕ → M ℕ
argument_bytes program frame_byte_size start zero index total = pure total
argument_bytes program frame_byte_size start (suc left) index total = do
  total' ←
      check_param frame_byte_size index total
        (get_or program.param_kinds (start + index) ValueKind.none)
        (get_or program.param_offsets (start + index) 0)
  argument_bytes program frame_byte_size start left (index + 1) total'

-- `clear(frame[localBase:frameEnd])`
unfoldable pub clear_frame : ℕ → ℕ → Vm → Vm
clear_frame base n vm =
    let frame = vm.memory segment_frame in
    set_segment segment_frame (record frame { bytes = overwrite base (replicate n 0) frame.bytes })
      vm

-- `stack.TruncateTo(&frame, localBase+offset, size)`
unfoldable pub pop_argument : ℕ → ℕ → M (Unit {0})
pop_argument offset n = do
  r ← gets (λ vm. truncate_to (vm.memory segment_frame) offset n (stack vm))
  pair ← lift r
  modify (λ vm. set_segment segment_frame pair.1 (set_segment segment_stack pair.0 vm))

-- The arguments are popped from the last to the first.
unfoldable pub pop_arguments : LinkedProgram → ℕ → ℕ → ℕ → M (Unit {0})
pop_arguments program local_base start zero = pure tt
pop_arguments program local_base start (suc index) = do
  pop_argument ((local_base + get_or program.param_offsets (start + index) 0) % 2 ^ 32)
      (size (get_or program.param_kinds (start + index) ValueKind.none))
  pop_arguments program local_base start index

-- The range of the callee's parameters in the program's two tables.
unfoldable pub params_in_range : LinkedProgram → ScriptFunctionDescriptor → Bool
params_in_range program function =
    let kinds = length program.param_kinds % 2 ^ 32 in
    let offsets = length program.param_offsets % 2 ^ 32 in
    leb function.param_start kinds
    && leb function.param_count (kinds - function.param_start)
    && leb function.param_start offsets
    && leb function.param_count (offsets - function.param_start)

-- The last assignments: the frame is pushed and the counter set.
unfoldable pub push_call_frame : ScriptFunctionDescriptor → ℕ → ℕ → Vm → Vm
push_call_frame function return_pc local_base vm = record vm {
  frame_top = local_base + function.frame_byte_size;
  call_frames = set vm.call_frames vm.call_frame_top (record {
    return_pc = return_pc;
    local_base = local_base;
    return_kind = function.return_kind;
  });
  call_frame_top = vm.call_frame_top + 1;
  pc = function.body_address;
}

-- The frame is cleared, the arguments move into it, and the call frame is pushed.
unfoldable pub enter_frame : LinkedProgram → ScriptFunctionDescriptor → ℕ → Bool → ℕ → M (Unit {0})
enter_frame program function return_pc pop_args local_base = do
  modify (clear_frame local_base function.frame_byte_size)
  if pop_args
      then pop_arguments program local_base function.param_start function.param_count
      else pure tt
  modify (push_call_frame function return_pc local_base)

-- The steps behind the checks of the descriptor: is there room for the frame?
unfoldable pub enter_checked :
    LinkedProgram → ScriptFunctionDescriptor → ℕ → ℕ → Bool → ℕ → M (Unit {0})
enter_checked program function function_index return_pc pop_args total vm =
    let stack_size : ℕ = length (stack vm).bytes in
    let frame_capacity : ℕ = length (vm.memory segment_frame).bytes in
    let n : ℕ = function.frame_byte_size in
    let action : M (Unit {0}) =
      if pop_args && ltb stack_size total
      then fault VmStatus.stack_underflow (pos function_index) (pos total) (pos stack_size)
      else if ltb frame_capacity vm.frame_top || ltb (frame_capacity - vm.frame_top) n
      then fault VmStatus.frame_overflow (pos function_index) (pos (vm.frame_top + n))
          (pos frame_capacity)
      else if leb (length vm.call_frames) vm.call_frame_top
      then fault VmStatus.call_frame_overflow (pos function_index) (pos (vm.call_frame_top + 1))
          (pos (length vm.call_frames))
      else enter_frame program function return_pc pop_args vm.frame_top in
    action vm

-- `enterScriptFunction` on a descriptor that was found.
unfoldable pub enter_function :
    LinkedProgram → ScriptFunctionDescriptor → ℕ → ℕ → Bool → M (Unit {0})
unfolding params_in_range
enter_function program function function_index return_pc pop_args =
    if leb (length program.text % 2 ^ 32) function.body_address
    then fault VmStatus.invalid_descriptor (pos function_index) (pos (length program.text))
        (pos function.body_address)
    else if params_in_range program function
    then (argument_bytes program function.frame_byte_size function.param_start function.param_count
          0 0
        >>= enter_checked program function function_index return_pc pop_args)
    else fault VmStatus.invalid_parameter (pos function_index) (pos function.param_count)
        (pos (length program.param_kinds))

-- What `enterScriptFunction` does with the descriptor at the index, where there is one.
unfoldable pub enter_found :
    LinkedProgram → ℕ → ℕ → Bool → Option ScriptFunctionDescriptor → M (Unit {0})
enter_found program function_index return_pc pop_args none =
    fault VmStatus.invalid_target (pos function_index) (pos (length program.functions))
      (pos (length program.functions))
enter_found program function_index return_pc pop_args (some function) =
    enter_function program function function_index return_pc pop_args

-- `enterScriptFunction`
unfoldable pub enter_script_function : LinkedProgram → ℕ → ℕ → Bool → M (Unit {0})
enter_script_function program function_index return_pc pop_args =
    enter_found program function_index return_pc pop_args
      (get_elem? program.functions function_index)

-- `callScriptFunction`
unfoldable pub call_script_function : LinkedProgram → ℕ → M (Unit {0})
call_script_function program function_index = do
  pc ← gets (λ vm. vm.pc)
  enter_script_function program function_index pc true

-- `hasStackValueKind`
abbrev pub has_stack_value_kind : ValueKind → Bool
has_stack_value_kind ValueKind.none = false
has_stack_value_kind ValueKind.void = false
has_stack_value_kind _ = true

-- The check of the result on the stack.
unfoldable pub check_result : ValueKind → ℕ → M (Unit {0})
check_result kind stack_size =
    if has_stack_value_kind kind
    then if size kind == 0
      then refuse VmStatus.invalid_value_kind
      else if ltb stack_size (size kind)
      then refuse VmStatus.stack_underflow
      else pure tt
    else pure tt

-- The frame is given up, and the counter goes back; the result says whether it was the last one.
unfoldable pub leave_frame : CallFrame → M Bool
leave_frame frame = do
  modify (λ vm. record vm { frame_top = frame.local_base })
  top ← gets (λ vm. vm.call_frame_top)
  if top == 0 then pure true else (modify (λ vm. record vm { pc = frame.return_pc }) >> pure false)

-- The steps of `returnFromFunction` behind the look at the current frame.
unfoldable pub return_to : CallFrame → M Bool
return_to frame = do
  modify (λ vm. record vm { call_frame_top = vm.call_frame_top - 1 })
  stack_size ← gets (λ vm. length (stack vm).bytes)
  check_result frame.return_kind stack_size
  leave_frame frame

-- `returnFromFunction`
unfoldable pub return_from_function : M Bool
return_from_function = do frame ← current_frame; return_to frame
