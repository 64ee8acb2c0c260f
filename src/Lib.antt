-- ===== src/Lib.antt =====
-- asgiref: ASGI's reference library. The parts that are modelled:
--
-- * asgiref/server.py, StatelessServer: the table of application instances by scope id, with the
--   least recently used instance displaced when there are too many, and the checker that removes
--   instances whose task is done. In Server.antt: the record `Server` is the table (a dict in
--   insertion order), the asyncio tasks by number, and the number of the next queue and task;
--   `get_or_create_application_instance`, `delete_oldest_application_instance`,
--   `delete_application_instance` are the methods of these names, `make_room` the while loop of
--   the first, `create` what follows the loop, and `check` one round of `application_checker`,
--   with a parameter for what happens to the server while `application_exception` is awaited.
--   time.time() is an argument and may go back; what making an instance raises is the field
--   `application`. Server/History.antt has the sequences of calls,
--   and Server/Mainloop.antt `arun` and `run`: the checker gathered with `handle`, as the sequence
--   of what happens, up to what ends it.
-- * asgiref/wsgi.py, WsgiToAsgi: Wsgi.antt. Wsgi/Environ.antt has `build_environ`, Wsgi/Instance
--   the per-request state with `start_response`, `run_wsgi_app` and `__call__` (`call`),
--   Wsgi/Adapter the class that makes an instance for every call, and Wsgi/Messages the scope and
--   the events of asgiref/typing.py that the code reads and writes.
--   A WSGI application is a parameter: a function from the environ to a tree (`App`) of the calls
--   of `start_response`, which it makes at any time and goes on by what they give, of the
--   outputs it yields, and of how it ends. The server's `send` may raise at any event.
--   Text.antt has the functions of str and bytes that the code calls.
-- * asgiref/current_thread_executor.py, CurrentThreadExecutor: Executor.antt. An executor with the
--   older executors below it is a list; `accept`, `poll` and `mark_done` are the three regions
--   under the lock, `submit` the walk up the stack, `run` a work item's run, and
--   `run_until_future` the loop. Executor/Concurrent.antt has any interleaving of the waiting
--   thread with threads that submit and with the end of the awaited future, Executor/Thread.antt a
--   thread with calls inside one another, each with an executor of its own.
-- * asgiref/local.py, Local, and `_restore_context` of asgiref/sync.py: Local.antt. `Storage` is
--   the pair of a thread and its data that a Local keeps in its context variable; `getattr`,
--   `setattr`, `delattr` are the three accessors on it, and `restore_context` moves a context's
--   variables to another thread. Python's `==` on what the variables hold is a parameter.
--   Local/Critical.antt has a thread-critical Local as one thread sees it, with `_CVar`, the plain
--   `threading.local` and `_thread_critical_storage`, which chooses between them.
-- * asgiref/sync.py, AsyncSingleThreadContext and ThreadSensitiveContext: Sync/Pools.antt, with the
--   context variable, the tokens and the table of pools of one class as the state `Contexts`;
--   `enter` and the two exits are the methods, `pool_for` and `loop_executor` what the calls take
--   their pool from. Sync/Nesting.antt has bodies of nested blocks and calls.
-- * asgiref/sync.py, AsyncToSync: Sync/Wrap.antt has `main_wrap` as the sequence of its effects on
--   the caller's cell, future and task list, Sync/ToSync.antt `__call__` (`to_sync_call`): the
--   parent's loop or a new one in a pool (`place`), the thread's current executor in the Local
--   `executors`, and the `finally` block (`leave`). How the awaitable runs on the loop is a
--   parameter (`LoopRun`). Sync/NewLoop.antt has `new_loop_wrap`, with the table of the new loops'
--   executors; in `to_async_call` the entry that a call finds there is an argument.
-- * asgiref/sync.py, SyncToAsync: Sync/ToAsync.antt, with the constructor, `choose` for the thread
--   to run the code in, `run_child` for the worker's part, `wait` for the shielded await and its
--   handler, and `to_async_call` for all of it. What the function makes of its context, and
--   what a cancellation meets, are parameters (`Run`). Sync/CallerThread.antt puts AsyncToSync,
--   SyncToAsync, Local and CurrentThreadExecutor together, Sync/InnerTask.antt the wait of a
--   SyncToAsync call and the AsyncToSync call in its worker. Sync/Program.antt has programs of
--   calls inside one another to any depth, as runs from context to context.
--   Sync/Handled.antt has what the two classes do with the exception that the caller handles, as an
--   interpreter of small programs.
-- * asgiref/sync.py, the functions async_to_sync and sync_to_async: Sync/Decorators.antt, with
--   AsyncToSync's constructor and `__get__`. A callable is a record of what the code asks of it.
-- * asgiref/testing.py, ApplicationCommunicator: Testing.antt, with the task, the two queues and
--   one action for each method. What the application does while a method waits, and whether the
--   time runs out, are arguments of the method.
-- * asgiref/typing.py, the scopes and events: Typing.antt has Python's values, the types that the
--   declarations are written in, and `has_type`; Typing/Scopes and Typing/Events the declarations,
--   by the classes' names, and Typing/Sent the dicts that asgiref/wsgi.py makes.
-- * asgiref/compatibility.py, the two styles of application: Compatibility.antt, with functions of
--   the same names. An application is a record of what the code looks at and of what calling it
--   does. The server makes its instances by it, which Server.antt leaves out with all that an
--   application does.
--
-- The files in the folder of a component are named for what they prove, Tests for the runs at
-- concrete inputs. Prelude has what the components share: dicts, results, the monad of fallible
-- actions on a state, integers and lists.
--
-- Bounds and fuel. The while loop of `get_or_create_application_instance` runs on one unit of fuel
-- more than the table has entries, which is enough as each round deletes one; running out is an
-- error of its own. `run_until_future` takes any fuel; each round takes one item off the queue, so
-- that one round more than there are items is enough. Numbers are Python's unbounded integers;
-- `int` and Content-Length may be negative.
--
-- Not modelled: the event loop and its scheduling (asyncio, threading and contextvars are not the
-- repository's); the logging of server.py; the request body's temporary file, which is its bytes;
-- of asgiref/sync.py pools that the garbage collector drops, and the aliases for old versions of
-- Python; timeout.py, a copy of another project; the types of callables in typing.py. A Local
-- after a write to one of the names that it reserves for itself is not followed, and a read is
-- one that reaches `__getattr__`. The case tables of Text stop at Latin-1, beyond which WSGI's
-- native strings and header bytes have no code point.
pub mod Prelude
pub mod Executor
pub mod Server
pub mod Text
pub mod Wsgi
pub mod Local
pub mod Compatibility
pub mod Sync
pub mod Testing
pub mod Typing
