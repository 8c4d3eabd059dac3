-- ===== src/Lib.antt =====
-- The Polling Express: a microkernel for the TS-7200 board and the tasks on it that run model trains.
-- The kernel (src/main.c, src/kernel, src/hal) schedules tasks by priority and passes messages between
-- them. The rest are tasks that serve each other by messages: the clock server counts ticks, the UART
-- servers talk to the track, the train and navigation servers keep the trains and the reservations of
-- the track, and the shell takes commands. src/common holds what the kernel and the tasks share.
--
-- The parts and their files:
-- - Base: the names that all files use, lists and arrays with native indices, signed integers,
--   `Outcome` (the results of code that can fail an assertion), and binary trees in arrays
--   (Base/HeapOrder, Base/HeapMove), which the two heaps of the program share.
-- - Common/CircularBuffer: src/common/circularbuffer.c. A pointer into the buffer is a slot number.
--   CircularBuffer/Refine compares the operations with a queue.
-- - Common/Heap: src/common/heap.c. An item is any value with a key; the array behind the heap is kept
--   with its stale entries. Heap/Add and Heap/Pop treat the two operations.
-- - Common/MyString: src/common/my_string.c. A string is the list of its bytes before the 0.
-- - Common/Hashtable: src/common/hashtable.c. Hashtable/Lookup describes a lookup after insertions.
-- - Kernel/Task: include/kernel/task.h and include/hal/context.h, the descriptor of a task.
-- - Kernel/Scheduler: src/kernel/task.c, the ready queue over the array of descriptors. A pointer to a
--   descriptor is its index. The value of the timer is an input of `add_to_ready_queue`.
--   Scheduler/Create has `scheduler_init` and `scheduler_add`.
-- - Kernel/Messages: the branches of `kmain` in src/main.c for Send, Receive and Reply. A message
--   is a list of bytes; the arguments of a call stand in the descriptor of its task.
-- - Kernel/Events: `wake_up` and the branches of `kmain` for AwaitEvent and interrupts. What the device
--   registers say is an input, and the enabled interrupts are part of the state. Events/Irq has the
--   branch for interrupts, Home the invariant, Transmit the sending side of UART1, Served the whole
--   branches.
-- - Kernel/Loop: the loop of `kmain`, which runs the next task and serves its call. The task's code,
--   behind `run_user`, is an argument, and a round's readings of the devices are a record. Loop/Settled
--   takes the invariant of Kernel/Events through a round.
-- - User/Track: src/user/track_data.c and include/user/track_node.h, the tables of both tracks, all of
--   their assignments. An edge is named by its node and its direction. Track/Broken has
--   `generate_buffer_node`, the nodes behind a merge up to a sensor, on as much fuel as its row has
--   places, `mark_switch_broken` and `mark_sensor_broken`; Track/Buffer is about the rows, Track/Bypass
--   about the track without the sensor.
-- - User/Algorithms: src/user/algorithms.c, the search for a shortest path. Algorithms/Graph has the walks
--   of a track, Relax and Visit what one round changes, Trace the invariant, Detour the search for a path
--   of a length at least.
-- - User/Clockserver: src/user/clockserver.c. A step takes the request and its sender and returns the
--   state and the replies.
-- - User/Nameserver: src/user/nameserver.c with `WhoIs` and `RegisterAs` of src/kernel/syscall.c. A round
--   takes the table, the request and its sender; a call takes the `Send` to the server as an argument.
-- - User/Uartserver: src/user/uartserver.c. Uartserver/Com2Tx is `uart_com2_tx_server`: a round takes the
--   request, its sender, and whether the line has room, and returns the state and the actions. The bytes
--   of `char_buffer` that are not cleared are an argument. Com2Tx/Lock, Wakeup, Output and Told treat the
--   owner of the line, the parked notifier, and the characters put out. Uartserver/Com1 is `uart_com1_server`
--   (with Com1/Credit on when it may put a character out), and Uartserver/Com2Rx `uart_com2_rx_server`.
-- - User/Virtual: src/user/virtual.c, the two numbers of a train.
-- - User/Trainserver: src/user/trainserver.c, whose commands wait in a heap of Common/Heap until they are
--   due. Trainserver/Step has what a round does for each request, Queue the invariant of the heap and of
--   its nodes, Plan and Switch the commands of a request, Worker what the worker is told, Edges the
--   sensors of the event, Client the worker and HardReverse.
-- - User/Dispatchserver: src/user/dispatchserver.c. Dispatchserver/Scan is the round for a reading, which
--   fills one buffer of Common/CircularBuffer for each train; Hits, Attribution, Release and Deliver take
--   its loops in turn, and Update the whole round.
-- - User/Shell: src/user/shell.c, a character at a time. Shell/Parse has the commands, with
--   `track_name_to_num` of src/user/track_data.c, and Shell/Run the calls that they make to the servers.
-- - User/Neutron: src/user/neutron.c on 32-bit words: `SquareRoot`, and in Neutron/Predict the prediction
--   of a train's way.
-- - User/Straightpath: `process_path` and `send_branches` of src/user/straightpathworker.c.
-- - User/Navigation: the reservation of track nodes in src/user/navigationserver.c. The track is an
--   argument, as is the node where the train was last registered.
--
-- Bounds: loops that follow a list are recursions on it. The loops of the two heaps run on fuel, one
-- round more than the heap has entries, and the loop of `dijkstra` on one more than the track has
-- nodes, and those of `SquareRoot` on 17, one more than a word has pairs of bits; the theorems on them
-- state that they end. The loops of the servers, which never end, and of
-- the kernel take one round for each request, or reading of the devices, of a list. Counters are
-- natural numbers: the counts of the containers are bounded by their capacity, and the ticks of the
-- clock, 10 ms each, stay below 2^31 for 248 days. The sums of `atoi` and of a Delay wrap around at 32
-- bits; the distances of `dijkstra` do not, and need not with edges of at most INF. Times of the timer are kept below 2^32 by a
-- hypothesis.
--
-- Not modelled: device registers and assembly (src/hal, the set-up of the board in `kmain`), the printing
-- tasks and what the shell prints, src/common/kprintf.c, which is a third-party printf, the couriers and
-- the tasks that work on a path, and the request handlers of the navigation server.
pub mod Base
pub mod Common
pub mod Kernel
pub mod User
